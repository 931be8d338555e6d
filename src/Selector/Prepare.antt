-- ===== src/Selector/Prepare.antt =====
-- server/socket/BasicSocketSelector.cpp: the sets that `select` is given.
use Prim.{tt}
use zhttpd.Base.{
  ℕ, ◌<◌, ◌≤◌, ltb, leb, List, [], ◌∷◌, ◌++◌, All, All-append, Bool, true, false, ◌≡◌, refl, ap,
  sym, ◌∙◌, append-nil, append_assoc, arith, Bool-cases, inl, inr,
}
use zhttpd.Selector.Basic.{Prepared, prepare_socket, prepare_sockets, sorted_out, is_same}

All-weaken : (m n : ℕ) (fds : List ℕ) → m ≤ n → All (λ fd. fd ≤ m) fds → All (λ fd. fd ≤ n) fds
All-weaken m n [] h a = tt
All-weaken m n (fd ∷ fds) h (g, a) = (omega arith, All-weaken m n fds h a)

module _ (limit : ℕ) where
  -- `select` may be called: the number of descriptors covers the sets, and all are below the limit.
  pub record IsPrepared (r : Prepared) : Type 0 where
    pub limited : r.max_fd < limit
    pub covered : All (λ fd. fd ≤ r.max_fd) r.set

  prepare_socket-IsPrepared :
      (fd : ℕ) (r : Prepared) → IsPrepared r → IsPrepared (prepare_socket limit fd r)
  unfolding prepare_socket
  prepare_socket-IsPrepared fd r h = elim (Bool-cases (ltb r.max_fd fd)) [
    | inl e ↦ elim (Bool-cases (leb limit fd)) [
      | inl f ↦ rw (e, f) (record { limited = h.limited; covered = h.covered })
      | inr f ↦
          rw (e, f)
            (record {
              limited = ground arith;
              covered =
                  All-append _ r.set (fd ∷ [])
                    (All-weaken r.max_fd fd r.set (ground arith) h.covered) (omega arith, tt);
            })
    ]
    | inr e ↦ rw e (record {
      limited = h.limited;
      covered = All-append _ r.set (fd ∷ []) h.covered (ground arith, tt);
    })
  ]

  prepare_socket_lem :
      (fd : ℕ) (r : Prepared)
      → IsPrepared r
      → ((prepare_socket limit fd r).set ≡ r.set ++ sorted_out limit true (fd ∷ []))
        × ((prepare_socket limit fd r).failed ≡ r.failed ++ sorted_out limit false (fd ∷ []))
  unfolding prepare_socket
  prepare_socket_lem fd r h = ground (arith, h.limited, append-nil r.set, append-nil r.failed)

  sorted_out-cons :
      (small : Bool) (fd : ℕ) (fds : List ℕ)
      → sorted_out limit small (fd ∷ fds)
        ≡ sorted_out limit small (fd ∷ []) ++ sorted_out limit small fds
  sorted_out-cons small fd fds = elim (Bool-cases (is_same (ltb fd limit) small)) [
    | inl e ↦ rw e refl
    | inr e ↦ rw e refl
  ]

  joined :
      (small : Bool) (xs ys : List ℕ) (fd : ℕ) (fds : List ℕ)
      → ys ≡ xs ++ sorted_out limit small (fd ∷ [])
      → ys ++ sorted_out limit small fds ≡ xs ++ sorted_out limit small (fd ∷ fds)
  joined small xs ys fd fds e =
      ap (λ zs. zs ++ sorted_out limit small fds) e
      ∙ append_assoc xs (sorted_out limit small (fd ∷ [])) (sorted_out limit small fds)
      ∙ ap (λ zs. xs ++ zs) (sym (sorted_out-cons small fd fds))

  -- If the descriptor of the interrupting socket is below the limit, `_prepareSockets` gives `select` all
  -- descriptors below it, in their order, within the number that it is told, and tells the others an
  -- error; so no set is written behind its end.
  pub prepare_sockets-IsPrepared :
      (fds : List ℕ) (r : Prepared)
      → IsPrepared r
      → IsPrepared (prepare_sockets limit fds r)
        × ((prepare_sockets limit fds r).set ≡ r.set ++ sorted_out limit true fds)
        × ((prepare_sockets limit fds r).failed ≡ r.failed ++ sorted_out limit false fds)
  unfolding prepare_sockets
  prepare_sockets-IsPrepared [] r h = (h, sym (append-nil r.set), sym (append-nil r.failed))
  prepare_sockets-IsPrepared (fd ∷ fds) r h =
      let k =
        prepare_sockets-IsPrepared fds (prepare_socket limit fd r)
          (prepare_socket-IsPrepared fd r h) in
      let l = prepare_socket_lem fd r h in
      (
        k.0,
        k.1 ∙ joined true r.set (prepare_socket limit fd r).set fd fds l.0,
        k.2 ∙ joined false r.failed (prepare_socket limit fd r).failed fd fds l.1,
      )
