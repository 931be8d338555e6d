-- ===== src/Network.antt =====
-- server/modules/Network/Network.cpp, and `setSize` of server/core/Buffer.hpp: the module at both ends
-- of the chain, which reads from the socket and writes to it.
use Prim.{absurd}
use zhttpd.Base.{
  ℕ, zero, suc, ◌+◌, ◌-◌, ◌<◌, ◌≤◌, Bool, true, false, Bytes, [], ◌∷◌, ◌++◌, Option, none, some,
  ltb, is_empty, if◌then◌else◌, length, take, drop, length-append, length-drop, ◌≡◌, refl, arith,
  ◌⊎◌, inl, inr, Bool-cases, ap, ◌∙◌, ltb→lt, ◌>>=◌,
}
use zhttpd.Api.{Event, on_can_read, on_can_write, on_response_data, Buffer, size}
use zhttpd.Tasks.{register}
use zhttpd.Tasks.Work.{need_write}
use zhttpd.Chain.{ModuleWrapper}
use zhttpd.Request.{Request, release, allocate, give_data, need_write_data, output_module}

-- `Buffer::setSize(size)`. What stands behind the old end of a buffer that grows, `behind`, is not
-- determined.
unfoldable pub set_size : ℕ → Bytes → Buffer → Buffer
set_size n behind buf = record buf { bytes = take n (buf.bytes ++ behind) }

-- `Buffer::setSize(start, size)`: the buffer starts `start` bytes later, and is then given the sum
-- as its size.
unfoldable pub set_start_size : ℕ → ℕ → Bytes → Buffer → Buffer
set_start_size start n behind buf =
    set_size (start + n) behind (record buf { bytes = drop start buf.bytes })

abbrev pub buffer_size : ℕ
buffer_size = 2048

-- `_processOnCanRead`: `received` is what the socket gives, at most 2048 bytes, and `memory` what
-- the new buffer holds behind it.
unfoldable pub process_can_read : Bytes → Bytes → Request → Option Request
unfolding set_size
process_can_read received memory r =
    let (buf, s) = allocate (take buffer_size (received ++ memory)) r in
    give_data (if ltb (length received) buffer_size then set_size (length received) [] buf else buf)
      s

-- `_processOnCanWrite`: the socket takes `sent` bytes.
unfoldable pub process_can_write : ℕ → Bytes → Buffer → Request → Option Request
unfolding set_start_size
process_can_write sent behind buf r =
    let rest = set_start_size sent (size buf - sent) behind buf in
    let again = need_write_data rest r in
    if is_empty buf.bytes then none else if ltb sent (size buf) then again else some (release buf r)

-- `_processOnResponseData`.
unfoldable pub process_response_data : Buffer → Request → Option Request
process_response_data buf r = if is_empty buf.bytes then none else need_write_data buf r

-- What the system's socket does: the bytes that it reads, how many it takes, and the memory behind
-- the buffer.
pub record SocketCall : Type 0 where
  pub received : Bytes
  pub sent : ℕ
  pub behind : Bytes

-- `processRequest`: any other event is not handled.
unfoldable pub process : SocketCall → Event → Option Buffer → Request → Option (Bool × Request)
unfolding process_can_read process_can_write process_response_data
process call on_can_read none r =
    process_can_read call.received call.behind r >>= λ s. some (true, s)
process call on_can_read (some buf) r = none
process call on_can_write (some buf) r =
    process_can_write call.sent call.behind buf r >>= λ s. some (true, s)
process call on_can_write none r = none
process call on_response_data (some buf) r = process_response_data buf r >>= λ s. some (true, s)
process call on_response_data none r = none
process call _ _ r = some (false, r)

need_write_buffers :
    (b : Buffer) (r : Request)
    → (need_write b r.tasks).write_buffers ≡ r.tasks.write_buffers ++ b ∷ []
unfolding need_write register
need_write_buffers b r = ground arith

take-all : (xs : Bytes) → take (length xs) xs ≡ xs
take-all [] = refl
take-all (x ∷ xs) = rw (take-all xs)

take-append :
    (xs ys : Bytes) (n : ℕ) → length xs ≤ n → take (length xs) (take n (xs ++ ys) ++ []) ≡ xs
take-append [] ys n h = refl
take-append (x ∷ xs) ys zero h = absurd (omega arith)
take-append (x ∷ xs) ys (suc n) h = rw (take-append xs ys n (omega arith))

take-full : (xs ys : Bytes) (n : ℕ) → length xs ≡ n → take n (xs ++ ys) ≡ xs
take-full [] ys zero h = refl
take-full [] ys (suc n) h = absurd (omega arith)
take-full (x ∷ xs) ys zero h = absurd (omega arith)
take-full (x ∷ xs) ys (suc n) h = rw (take-full xs ys n (omega arith))

-- What the input module gives is a new buffer with the bytes that the socket gave, no more than it
-- was asked for, whatever the memory of the buffer held.
pub process_can_read_lem :
    (received memory : Bytes) (r : Request)
    → length received ≤ buffer_size
    → process_can_read received memory r ≡ give_data (allocate received r).0 (allocate received r).1
unfolding process_can_read set_size allocate
process_can_read_lem received memory r h = elim (Bool-cases (ltb (length received) buffer_size)) [
  | inl less ↦ rw (less, take-append received memory buffer_size h)
  | inr all ↦ rw (all, take-full received memory buffer_size (ground arith))
]

rest-bytes :
    (sent : ℕ) (behind : Bytes) (buf : Buffer)
    → sent < size buf
    → length behind ≡ sent
    → (set_start_size sent (size buf - sent) behind buf).bytes ≡ drop sent buf.bytes ++ behind
unfolding set_start_size set_size
rest-bytes sent behind buf h room =
    let text = drop sent buf.bytes ++ behind in
    let whole : sent + (size buf - sent) ≡ length text =
      omega (arith, length-append (drop sent buf.bytes) behind, length-drop sent buf.bytes) in
    ap (λ n. take n text) whole ∙ take-all text

rest-size :
    (sent : ℕ) (behind : Bytes) (buf : Buffer)
    → sent < size buf
    → length behind ≡ sent
    → length (drop sent buf.bytes ++ behind) ≡ size buf
rest-size sent behind buf h room =
    omega (arith, length-append (drop sent buf.bytes) behind, length-drop sent buf.bytes)

need_write_data-output :
    (b : Buffer) (r : Request) (out : ModuleWrapper)
    → r.current ≡ some out.id
    → output_module r ≡ some out
    → need_write_data b r ≡ some (record r { tasks = need_write b r.tasks })
unfolding need_write_data
need_write_data-output b r out here last = ground arith

module _ (sent : ℕ) (behind : Bytes) (buf : Buffer) (r : Request) where
  write_part :
      is_empty buf.bytes ≡ false
      → ltb sent (size buf) ≡ true
      → process_can_write sent behind buf r
        ≡ need_write_data (set_start_size sent (size buf - sent) behind buf) r
  unfolding process_can_write
  write_part full less = rw (full, less)

  write_all :
      is_empty buf.bytes ≡ false
      → ltb sent (size buf) ≡ false
      → process_can_write sent behind buf r ≡ some (release buf r)
  unfolding process_can_write
  write_all full all = rw (full, all)

module _ (call : SocketCall) (buf : Buffer) (r : Request) (out : ModuleWrapper) where
  -- The output module gets a buffer that is not empty. If the socket takes all of it, the buffer
  -- is given back and the output that is pending stays. If it takes fewer bytes, something is to be
  -- written again: as many bytes as before, namely those not taken and, behind them, as many
  -- undetermined ones as were taken; and it is to be written behind all the output that was pending.
  pub process_can_write_lem :
      is_empty buf.bytes ≡ false
      → r.current ≡ some out.id
      → output_module r ≡ some out
      → length call.behind ≡ call.sent
      → (s : Request) × (process call on_can_write (some buf) r ≡ some (true, s))
        × (((size buf ≤ call.sent)
              × (s.tasks.released ≡ r.tasks.released ++ buf ∷ [])
              × (s.tasks.write_buffers ≡ r.tasks.write_buffers))
            ⊎ ((rest : Buffer) × (call.sent < size buf)
                × (rest.bytes ≡ drop call.sent buf.bytes ++ call.behind)
                × (size rest ≡ size buf)
                × (s.tasks.write_buffers ≡ r.tasks.write_buffers ++ rest ∷ [])))
  unfolding process release
  process_can_write_lem full here last room =
      let rest = set_start_size call.sent (size buf - call.sent) call.behind buf in
      let again = need_write_data-output rest r out here last in
      elim (Bool-cases (ltb call.sent (size buf))) [
        | inl less ↦
            let bytes = rest-bytes call.sent call.behind buf (ltb→lt _ _ less) room in
            (
              record r { tasks = need_write rest r.tasks },
              ap (λ o. o >>= λ s. some (true, s))
                  (write_part call.sent call.behind buf r full less ∙ again),
              inr (
                rest,
                ltb→lt _ _ less,
                bytes,
                ap length bytes ∙ rest-size call.sent call.behind buf (ltb→lt _ _ less) room,
                need_write_buffers rest r,
              ),
            )
        | inr all ↦ (
          release buf r,
          ap (λ o. o >>= λ s. some (true, s)) (write_all call.sent call.behind buf r full all),
          inl (ground arith, refl, refl),
        )
      ]
