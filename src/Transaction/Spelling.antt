-- ===== src/Transaction/Spelling.antt =====
-- crates/reink-d4/src/transaction.rs: decoding the bytes of a message under V10 and encoding it again.
use reink_rust.Base.{List, [], if◌then◌else◌, ok, ◌==◌, ◌∷◌, ◌≡◌, ℕ}
use reink_rust.Transaction.Message.{v10, TransactionMessage}
use reink_rust.Transaction.Encode.{encode_fields}

-- What V10 writes behind the sockets of a CloseChannel and of a CreditRequest, whatever was there.
abbrev with_tail : List ℕ → List ℕ → List ℕ
with_tail (a ∷ b ∷ bs) tail = a ∷ b ∷ tail
with_tail bs tail = bs

-- The bytes behind the code as V10 writes them: the third byte of a CloseChannel is 0, the four bytes behind
-- the sockets of a CreditRequest are the limits 0x0080 and 0xffff, and all else is as it was read.
abbrev pub v10_body : ℕ → List ℕ → List ℕ
v10_body c body =
    if c == 0x02
    then with_tail body (0 ∷ [])
    else if c == 0x04
    then with_tail body (0 ∷ 0x80 ∷ 0xff ∷ 0xff ∷ [])
    else body

abbrev Spells : ℕ → List ℕ → TransactionMessage → Type 0
Spells c body m = encode_fields m v10 ≡ ok (c ∷ v10_body c body)

abbrev pub v10_spelling : List ℕ → List ℕ
v10_spelling [] = []
v10_spelling (c ∷ body) = c ∷ v10_body c body
