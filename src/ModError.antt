-- ===== src/ModError.antt =====
-- server/modules/ModError/ModError.hpp: the module that answers with a page for an error.
pub mod Page
use zhttpd.Base.{
  ℕ, zero, suc, ltb, Bool, true, false, Bytes, codes, [], ◌∷◌, ◌++◌, Option, none, some,
  if◌then◌else◌, length, ◌>>=◌,
}
use zhttpd.Api.{Event, on_end, Buffer}
use zhttpd.Request.{Request, release, allocate, give_data, raise_end, set_response_header}

-- The blanks of the source.
abbrev pub blanks : ℕ → Bytes
blanks zero = []
blanks (suc n) = b' ' ∷ blanks n

abbrev pub filler : Bytes
filler = blanks 590

-- `msg` and the page, for the text of the response's code.
abbrev pub message : Bytes → Request → Bytes
message code r = code ++ codes " - " ++ r.response_msg

abbrev pub page : Bytes → Bytes
page msg =
    codes "<html><head><title>"
    ++ msg
    ++ codes "</title></head><body><h1>"
    ++ msg
    ++ codes "</h1></body></html>\r\n"

abbrev pub release_given : Option Buffer → Request → Request
release_given none r = r
release_given (some buf) r = release buf r

-- The buffer of blanks in front of a short page.
unfoldable pub give_filler : Buffer → Request → Option Request
unfolding allocate give_data
give_filler b r =
    let a = allocate filler r in if ltb (length b.bytes) 512 then give_data a.0 a.1 else some r

-- The answer to `ON_END`.
unfoldable pub answer : Bytes → Request → Option Request
unfolding allocate give_data raise_end set_response_header give_filler
answer code r =
    let s =
      set_response_header (codes "Content-Type") (codes "text/html")
        (set_response_header (codes "Connection") (codes "close") r) in
    let a = allocate (page (message code s)) s in
    give_filler a.0 a.1 >>= (λ (t : Request). give_data a.0 t >>= raise_end)

-- `processRequest`; `to_string` is the number in decimal, as a stream of the library writes it.
unfoldable pub process : (ℕ → Bytes) → Event → Option Buffer → Request → Option (Bool × Request)
unfolding answer release
process to_string on_end buf r =
    answer (to_string r.response_code) (release_given buf r) >>= (λ (s : Request). some (true, s))
process to_string _ buf r = some (true, release_given buf r)
