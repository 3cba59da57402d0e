-- ===== src/Client/Boxes.antt =====
-- DummyClient/DummyClient.cpp: the boxes of a login request, in which `SendLogin` puts its strings.
use iocp_chatserver.Prelude.{
  ℕ, zero, suc, ◌+◌, ◌-◌, ◌*◌, ◌≤◌, ◌≡◌, refl, sym, ap, ◌∙◌, List, [], ◌∷◌, ◌++◌, arith, length,
  take, drop, replicate, copy_at, le_bytes, length-append, take_all, append-nil, append_assoc,
  slice-mid, copy_at-mid, length-replicate,
}
use iocp_chatserver.Client.{login_request, with_box}
use iocp_chatserver.Db.{wide_prefix, wide_copy, end_at}

length-wide_prefix : (n : ℕ) (src : List ℕ) → length (wide_prefix n src) ≤ 2 * n
unfolding wide_prefix
length-wide_prefix zero src = omega arith
length-wide_prefix (suc n) [] = omega arith
length-wide_prefix (suc n) (a ∷ []) = omega arith
length-wide_prefix (suc n) (a ∷ b ∷ src) = ground (arith, length-wide_prefix n src)

drop-replicate : {A : Type 0} (k n : ℕ) (a : A) → drop k (replicate n a) ≡ replicate (n - k) a
drop-replicate zero n a = ap (λ m. replicate m a) {x = n} {y = n - 0} (omega arith)
drop-replicate (suc k) zero a = ap (λ m. replicate m a) {x = 0} {y = 0 - suc k} (omega arith)
drop-replicate (suc k) (suc n) a =
    drop-replicate k n a ∙ ap (λ m. replicate m a) {x = n - k} {y = suc n - suc k} (omega arith)

replicate-append :
    {A : Type 0} (m n : ℕ) (a : A) → replicate m a ++ replicate n a ≡ replicate (m + n) a
replicate-append zero n a = ap (λ k. replicate k a) {x = n} {y = 0 + n} (omega arith)
replicate-append (suc m) n a =
    ap (◌∷◌ a) (replicate-append m n a)
    ∙ ap (λ k. replicate k a) {x = suc (m + n)} {y = suc m + n} (omega arith)

-- A string in a box of zeros: its characters, and zeros to the end, of which there are two or more.
box_zeros :
    (room : ℕ) (text : List ℕ)
    → let w = wide_prefix room text in
      wide_copy room (replicate (2 * (room + 1)) 0) text
      ≡ (w ++ replicate (2 * room - length w) 0) ++ (0 ∷ 0 ∷ [])
unfolding wide_copy
box_zeros room text =
    let w = wide_prefix room text in
    let size = length-wide_prefix room text in
    let k = 2 * room - length w in
    ap (◌++◌ (w ++ (0 ∷ 0 ∷ []))) (
      drop-replicate (0 + length (w ++ (0 ∷ 0 ∷ []))) (2 * (room + 1)) 0
      ∙ ap (λ m. replicate m 0) {x = 2 * (room + 1) - (0 + length (w ++ (0 ∷ 0 ∷ [])))} {y = k}
          (omega (arith, length-append w (0 ∷ 0 ∷ []), size)))
    ∙ (append_assoc w (0 ∷ 0 ∷ []) (replicate k 0)
        ∙ (ap (◌++◌ w) (
              replicate-append 2 k 0
              ∙ (ap (λ m. replicate m 0) {x = 2 + k} {y = k + 2} (omega arith)
                  ∙ sym (replicate-append k 2 0)))
            ∙ sym (append_assoc w (replicate k 0) (0 ∷ 0 ∷ []))))

pub length-box :
    (room : ℕ) (text : List ℕ)
    → length (wide_copy room (replicate (2 * (room + 1)) 0) text) ≡ 2 * (room + 1)
length-box room text = omega (
  arith,
  ap length (box_zeros room text),
  length-append (wide_prefix room text ++ replicate (2 * room - length (wide_prefix room text)) 0)
      (0 ∷ 0 ∷ []),
  length-append (wide_prefix room text) (replicate (2 * room - length (wide_prefix room text)) 0),
  length-replicate {A = ℕ} (2 * room - length (wide_prefix room text)) 0,
  length-wide_prefix room text,
)

-- The server's end mark falls on zeros, in an array that is longer than the box, too.
pub end_at-box :
    (room : ℕ) (text tail : List ℕ)
    → let box = wide_copy room (replicate (2 * (room + 1)) 0) text in
      end_at room (box ++ tail) ≡ box ++ tail
end_at-box room text tail =
    let w = wide_prefix room text in
    let front = w ++ replicate (2 * room - length w) 0 in
    let size : 2 * room ≡ length front = omega (
      arith,
      length-append w (replicate (2 * room - length w) 0),
      length-replicate {A = ℕ} (2 * room - length w) 0,
      length-wide_prefix room text,
    ) in
    let parts = ap (λ l. l ++ tail) (box_zeros room text) ∙ append_assoc front (0 ∷ 0 ∷ []) tail in
    ap (end_at room) parts
    ∙ (copy_at-mid (2 * room) front (0 ∷ 0 ∷ []) (0 ∷ 0 ∷ []) tail size refl ∙ sym parts)

-- The boxes of a request.
abbrev pub account_box : List ℕ → List ℕ
account_box account = wide_copy 31 (replicate 64 0) account

abbrev pub password_box : List ℕ → List ℕ
password_box password = wide_copy 63 (replicate 128 0) password

-- The arrays of a `DBJob` once such a box is read into them: they are longer than it by a character,
-- which stays as it was.
abbrev pub account_array : List ℕ → List ℕ → List ℕ
account_array old account = account_box account ++ drop 64 old

abbrev pub password_array : List ℕ → List ℕ → List ℕ
password_array old password = password_box password ++ drop 128 old

with_second_box :
    (front password : List ℕ)
    → length front ≡ 66
    → with_box 66 64 password (front ++ (replicate 128 0 ++ [])) ≡ front ++ password_box password
with_second_box front password size =
    ap (λ box. copy_at (front ++ (replicate 128 0 ++ [])) 66 (wide_copy 63 box password))
      (slice-mid 66 128 front (replicate 128 0) [] (sym size) refl)
    ∙ (copy_at-mid 66 front (replicate 128 0) (password_box password) [] (sym size)
          (length-box 63 password)
        ∙ ap (◌++◌ front) (append-nil (password_box password)))

pub request_payload :
    (account password : List ℕ)
    → let r = login_request account password in
      take r.payload_len r.payload ≡ le_bytes 2 1 ++ (account_box account ++ password_box password)
unfolding login_request
request_payload account password =
    let front = le_bytes 2 1 ++ account_box account in
    let front_size : length front ≡ 66 =
      omega (arith, length-append (le_bytes 2 1) (account_box account), length-box 31 account) in
    let first =
      copy_at-mid 2 (le_bytes 2 1) (replicate 64 0) (account_box account) (replicate 128 0) refl
        (length-box 31 account) in
    let whole =
      ap (with_box 66 64 password) (
        first
        ∙ (sym (append_assoc (le_bytes 2 1) (account_box account) (replicate 128 0))
            ∙ ap (◌++◌ front) (sym (append-nil (replicate 128 0)))))
      ∙ with_second_box front password front_size in
    ap (take 194) whole
    ∙ (take_all 194 (front ++ password_box password) (
          omega (
            arith,
            length-append front (password_box password),
            front_size,
            length-box 63 password,
          ))
        ∙ append_assoc (le_bytes 2 1) (account_box account) (password_box password))
