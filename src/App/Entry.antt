-- ===== src/App/Entry.antt =====
-- crates/reink-app/src/lib.rs: the wait for the printer's reply to the entry command.
use reink_rust.Base.Text.{contains, find, starts_with}
use reink_rust.Base.{
  bind-ok, ok-injective, subst, sym, ◌>>=◌, ◌∙◌, ◌⊎◌, Bool, Bool-cases, List, Result, [], false,
  if◌then◌else◌, inl, inr, length, suc, true, zero, ◌++◌, ◌==◌, ◌∷◌, ℕ, ◌≡◌, refl, not, arith,
  append-nil, append_assoc,
}
use reink_rust.Platform.Transport.{ByteTransport, TransportError}
use reink_rust.App.Plan.{ApplicationError}
use reink_rust.App.Connect.{entry_loop, wait_for_entry_reply, no_entry, epson_d4_entry_reply}

starts_with-append : (s t p : List ℕ) → starts_with s p ≡ true → starts_with (s ++ t) p ≡ true
unfolding starts_with
starts_with-append s t [] h = refl
starts_with-append [] t (p ∷ ps) h = absurd (ground arith)
starts_with-append (b ∷ bs) t (p ∷ ps) h = ground (arith, starts_with-append bs t ps)

contains-starts : (s p : List ℕ) → starts_with s p ≡ true → contains s p ≡ true
unfolding contains find
contains-starts [] p h = ground arith
contains-starts (b ∷ bs) p h = ground arith

contains-rest : (b : ℕ) (bs p : List ℕ) → contains bs p ≡ true → contains (b ∷ bs) p ≡ true
unfolding contains find
contains-rest b bs p h = ground arith

contains-cases :
    (b : ℕ) (bs p : List ℕ)
    → contains (b ∷ bs) p ≡ true
    → (starts_with (b ∷ bs) p ≡ true) ⊎ (contains bs p ≡ true)
unfolding contains find
contains-cases b bs p h = ground arith

contains-nothing : (p : List ℕ) → contains [] p ≡ true → starts_with [] p ≡ true
unfolding contains find
contains-nothing p h = ground arith

-- What stands in a text stands in a longer one.
contains-append : (s t p : List ℕ) → contains s p ≡ true → contains (s ++ t) p ≡ true
contains-append [] t p h = contains-starts t p (starts_with-append [] t p (contains-nothing p h))
contains-append (b ∷ bs) t p h = elim (contains-cases b bs p h) [
  | inl st ↦ contains-starts (b ∷ bs ++ t) p (starts_with-append (b ∷ bs) t p st)
  | inr rest ↦ contains-rest b (bs ++ t) p (contains-append bs t p rest)
]

abbrev pub joined : List (List ℕ) → List ℕ
joined [] = []
joined (chunk ∷ chunks) = chunk ++ joined chunks

not_empty : (b : ℕ) (bs : List ℕ) → length (b ∷ bs) == 0 ≡ false
not_empty b bs = ground arith

some_bytes : (xs : List ℕ) (b : ℕ) (bs : List ℕ) → true ≡ not (length (xs ++ b ∷ bs) == 0)
some_bytes [] b bs = ground arith
some_bytes (x ∷ xs) b bs = ground arith

module _ (T : ByteTransport) where
  -- What so many reads in a row give, if none of them fails.
  unfoldable pub read_all : ℕ → T.Target → Result TransportError (List (List ℕ))
  read_all zero t = Result.ok []
  read_all (suc n) t = (T.read t 256).0 >>= λ chunk.
      read_all n (T.read t 256).1 >>= λ chunks. Result.ok (chunk ∷ chunks)

  -- The verdict on all bytes that were received.
  abbrev pub verdict : List ℕ → Result ApplicationError (Unit {0})
  verdict bytes =
      if contains bytes epson_d4_entry_reply
      then Result.ok tt
      else Result.err (no_entry T (not (length bytes == 0)))

  -- One read that finds nothing, and one that brings bytes.
  entry_loop-quiet :
      (n : ℕ) (received : Bool) (reply : List ℕ) (t : T.Target)
      → (T.read t 256).0 ≡ Result.ok []
      → entry_loop T (suc n) received reply t ≡ entry_loop T n received reply (T.read t 256).1
  unfolding entry_loop
  entry_loop-quiet n received reply t h = rw (entry_loop, h) refl

  entry_loop-found :
      (n : ℕ) (received : Bool) (reply : List ℕ) (t : T.Target) (b : ℕ) (bs : List ℕ)
      → (T.read t 256).0 ≡ Result.ok (b ∷ bs)
      → contains (reply ++ b ∷ bs) epson_d4_entry_reply ≡ true
      → (entry_loop T (suc n) received reply t).0 ≡ Result.ok tt
  unfolding entry_loop
  entry_loop-found n received reply t b bs h c =
      rw (entry_loop, h) (unfold entry_loop in rw (not_empty b bs) (rw c refl))

  entry_loop-more :
      (n : ℕ) (received : Bool) (reply : List ℕ) (t : T.Target) (b : ℕ) (bs : List ℕ)
      → (T.read t 256).0 ≡ Result.ok (b ∷ bs)
      → contains (reply ++ b ∷ bs) epson_d4_entry_reply ≡ false
      → entry_loop T (suc n) received reply t
        ≡ entry_loop T n true (reply ++ b ∷ bs) (T.read t 256).1
  unfolding entry_loop
  entry_loop-more n received reply t b bs h c =
      rw (entry_loop, h) (unfold entry_loop in rw (not_empty b bs) (rw c refl))

  verdict-found :
      (bytes : List ℕ) → contains bytes epson_d4_entry_reply ≡ true → verdict bytes ≡ Result.ok tt
  verdict-found bytes h = rw h refl

  verdict-missing :
      (received : Bool) (reply : List ℕ)
      → contains reply epson_d4_entry_reply ≡ false
      → received ≡ not (length reply == 0)
      → Result.err (no_entry T received) ≡ verdict reply
  verdict-missing received reply h r = rw (h, r) refl

  read_all-cases :
      (n : ℕ) (t : T.Target) (chunks : List (List ℕ))
      → read_all (suc n) t ≡ Result.ok chunks
      → (chunk : List ℕ) × (rest : List (List ℕ)) × (chunks ≡ chunk ∷ rest)
        × ((T.read t 256).0 ≡ Result.ok chunk)
        × (read_all n (T.read t 256).1 ≡ Result.ok rest)
  unfolding read_all
  read_all-cases n t chunks eq =
      let (chunk, read, eq') = bind-ok (T.read t 256).0 _ chunks eq in
      let (rest, reads, done) = bind-ok (read_all n (T.read t 256).1) _ chunks eq' in
      (chunk, rest, sym (ok-injective done), read, reads)

  entry_loop-step :
      (n : ℕ) (received : Bool) (reply : List ℕ) (t : T.Target) (chunk : List ℕ)
      (rest : List (List ℕ))
      → contains reply epson_d4_entry_reply ≡ false
      → received ≡ not (length reply == 0)
      → (T.read t 256).0 ≡ Result.ok chunk
      → ((received' : Bool) (reply' : List ℕ)
          → contains reply' epson_d4_entry_reply ≡ false
          → received' ≡ not (length reply' == 0)
          → (entry_loop T n received' reply' (T.read t 256).1).0 ≡ verdict (reply' ++ joined rest))
      → (entry_loop T (suc n) received reply t).0 ≡ verdict (reply ++ (chunk ++ joined rest))
  entry_loop-step n received reply t [] rest h r read next =
      rw (entry_loop-quiet n received reply t read) (next received reply h r)
  entry_loop-step n received reply t (b ∷ bs) rest h r read next =
      rw (sym (append_assoc reply (b ∷ bs) (joined rest)))
        (elim (Bool-cases (contains (reply ++ b ∷ bs) epson_d4_entry_reply)) [
          | inl found ↦
              entry_loop-found n received reply t b bs read found
              ∙ sym (verdict-found _ (contains-append (reply ++ b ∷ bs) (joined rest) _ found))
          | inr absent ↦
              rw (entry_loop-more n received reply t b bs read absent)
                (next true (reply ++ b ∷ bs) absent (some_bytes reply b bs))
        ])

  entry_loop-verdict :
      (n : ℕ) (received : Bool) (reply : List ℕ) (t : T.Target) (chunks : List (List ℕ))
      → contains reply epson_d4_entry_reply ≡ false
      → received ≡ not (length reply == 0)
      → read_all n t ≡ Result.ok chunks
      → (entry_loop T n received reply t).0 ≡ verdict (reply ++ joined chunks)
  unfolding read_all
  entry_loop-verdict zero received reply t chunks h r eq =
      let none_read : reply ++ joined chunks ≡ reply =
        subst (λ cs. reply ++ joined cs ≡ reply) (ok-injective eq) (append-nil reply) in
      unfold entry_loop in rw none_read (verdict-missing received reply h r)
  entry_loop-verdict (suc n) received reply t chunks h r eq =
      let (chunk, rest, cut, read, reads) = read_all-cases n t chunks eq in
      rw cut (
        entry_loop-step n received reply t chunk rest h r read (λ received' reply' h' r'.
          entry_loop-verdict n received' reply' (T.read t 256).1 rest h' r' reads))

  -- If the next five reads do not fail, the wait is decided by all their bytes together, however they
  -- are cut into reads and although it ends at the read that completes the reply: it succeeds if the
  -- entry reply stands anywhere in them; else the reply is invalid if there was any byte, and missing
  -- if there was none.
  pub wait_for_entry_reply-verdict :
      (t : T.Target) (chunks : List (List ℕ))
      → read_all 5 t ≡ Result.ok chunks
      → (wait_for_entry_reply T t).0 ≡ verdict (joined chunks)
  unfolding wait_for_entry_reply
  wait_for_entry_reply-verdict t chunks eq =
      entry_loop-verdict 5 false [] t chunks (unfold contains find starts_with in refl) refl eq
