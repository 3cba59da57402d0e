-- ===== src/Client/Console/Typing.antt =====
-- DummyClient/DummyClient.cpp: what a user types, as the commands read it, and the sign-up at the
-- server.
use iocp_chatserver.Prelude.{
  ℕ, zero, suc, ◌≤◌, ◌<◌, ◌⊎◌, ◌≡◌, refl, sym, ap, ◌∙◌, true, false, List, [], ◌∷◌, ◌++◌, some,
  arith, length, take, find, append-nil, length-append,
}
use iocp_chatserver.Packet
use iocp_chatserver.Packet.{Packet}
use iocp_chatserver.Packet.Bounds
use iocp_chatserver.Player.{Player}
use iocp_chatserver.Db.{push_job}
use iocp_chatserver.Chat.State.{Chat, Memory}
use iocp_chatserver.Chat.Handlers.{handle_recv}
use iocp_chatserver.Client.{sign_up_request}
use iocp_chatserver.Client.Boxes.{account_array, password_array}
use iocp_chatserver.Client.SignUp.{sign_up_job, handle_recv-sign_up_request}
use iocp_chatserver.Client.Console.{
  is_space, strip_onto, strip_end, skip_spaces, take_word, add_word, scan_words, after_prefix,
  sign_up_text, sign_up_of, command_of, request_of, sign_up,
}

-- Characters that are no white space.
abbrev pub AllSolid : List ℕ → Type 0
AllSolid [] = Unit
AllSolid (b ∷ bs) = (is_space b ≡ false) × AllSolid bs

-- A word that `%63s` reads whole.
pub record IsWord (w : List ℕ) : Type 0 where
  pub some_text : 0 < length w
  pub short : length w ≤ 63
  pub solid : AllSolid w

-- The end of a line: carriage returns and line feeds.
abbrev pub AllEnds : List ℕ → Type 0
AllEnds [] = Unit
AllEnds (b ∷ bs) = ((b ≡ b'\n') ⊎ (b ≡ b'\r')) × AllEnds bs

strip_end-ends : (ends : List ℕ) → AllEnds ends → strip_end ends ≡ []
unfolding strip_end
strip_end-ends [] h = refl
strip_end-ends (b ∷ bs) h = ground (arith, strip_end-ends bs h.1)

strip_end-word : (w ends : List ℕ) → AllSolid w → AllEnds ends → strip_end (w ++ ends) ≡ w
unfolding strip_end strip_onto
strip_end-word [] ends s h = strip_end-ends ends h
strip_end-word (b ∷ []) ends s h = rw (strip_end-ends ends h) (ground arith)
strip_end-word (b ∷ c ∷ w) ends s h = rw (strip_end-word (c ∷ w) ends s.1 h) refl

strip_onto-kept : (b : ℕ) (zs : List ℕ) → 0 < length zs → strip_onto b zs ≡ b ∷ zs
unfolding strip_onto
strip_onto-kept b [] h = absurd (omega arith)
strip_onto-kept b (z ∷ zs) h = refl

-- What stands before something that is kept is kept.
strip_end-append :
    (xs ys zs : List ℕ) → 0 < length zs → strip_end ys ≡ zs → strip_end (xs ++ ys) ≡ xs ++ zs
unfolding strip_end
strip_end-append [] ys zs p e = e
strip_end-append (x ∷ xs) ys zs p e =
    ap (strip_onto x) (strip_end-append xs ys zs p e)
    ∙ strip_onto-kept x (xs ++ zs) (omega (arith, length-append xs zs))

-- The end of the text, or white space.
abbrev Stops : List ℕ → Type 0
Stops [] = Unit
Stops (b ∷ bs) = is_space b ≡ true

take_word_lem :
    (n : ℕ) (w rest : List ℕ)
    → length w ≤ n
    → AllSolid w
    → Stops rest
    → take_word n (w ++ rest) ≡ (w, rest)
unfolding take_word
take_word_lem zero [] rest h s p = refl
take_word_lem zero (b ∷ w) rest h s p = absurd (omega arith)
take_word_lem (suc n) [] [] h s p = refl
take_word_lem (suc n) [] (b ∷ rest) h s p = rw p refl
take_word_lem (suc n) (b ∷ w) rest h s p = rw (take_word_lem n w rest (omega arith) s.1 p, s.0) refl

skip_spaces-word :
    (w rest : List ℕ) → 0 < length w → AllSolid w → skip_spaces (w ++ rest) ≡ w ++ rest
unfolding skip_spaces
skip_spaces-word [] rest p s = absurd (omega arith)
skip_spaces-word (b ∷ w) rest p s = rw (s.0) refl

add_word-word :
    (scan : List ℕ → List (List ℕ)) (w rest : List ℕ)
    → 0 < length w
    → add_word scan (w, rest) ≡ w ∷ scan rest
unfolding add_word
add_word-word scan [] rest p = absurd (omega arith)
add_word-word scan (b ∷ w) rest p = refl

scan_words-word :
    (n : ℕ) (w rest : List ℕ)
    → IsWord w
    → Stops rest
    → scan_words (suc n) (w ++ rest) ≡ w ∷ scan_words n rest
unfolding scan_words
scan_words-word n w rest v p =
    ap (λ s. add_word (scan_words n) (take_word 63 s)) (skip_spaces-word w rest v.some_text v.solid)
    ∙ (ap (add_word (scan_words n)) (take_word_lem 63 w rest v.short v.solid p)
        ∙ add_word-word (scan_words n) w rest v.some_text)

scan_words-space : (n : ℕ) (s : List ℕ) → scan_words n (32 ∷ s) ≡ scan_words n s
unfolding scan_words skip_spaces
scan_words-space zero s = refl
scan_words-space (suc n) s = refl

scan_three :
    (a b c : List ℕ)
    → IsWord a
    → IsWord b
    → IsWord c
    → scan_words 3 (a ++ (32 ∷ (b ++ (32 ∷ c)))) ≡ a ∷ b ∷ c ∷ []
unfolding scan_words
scan_three a b c u v w =
    scan_words-word 2 a (32 ∷ (b ++ (32 ∷ c))) u refl
    ∙ ap (◌∷◌ a) (
        scan_words-space 2 (b ++ (32 ∷ c))
        ∙ (scan_words-word 1 b (32 ∷ c) v refl
            ∙ ap (◌∷◌ b) (
                scan_words-space 1 c
                ∙ (ap (scan_words 1) (sym (append-nil c)) ∙ scan_words-word 0 c [] w tt))))

-- The line `/signup account password nickname`, as `fgets` reads it with its end.
abbrev pub sign_up_line : List ℕ → List ℕ → List ℕ → List ℕ → List ℕ
sign_up_line account password nickname ends =
    sign_up_text ++ (account ++ (32 ∷ (password ++ (32 ∷ (nickname ++ ends)))))

strip_end-line :
    (account password nickname ends : List ℕ)
    → IsWord nickname
    → AllEnds ends
    → strip_end (sign_up_line account password nickname ends)
      ≡ sign_up_text ++ (account ++ (32 ∷ (password ++ (32 ∷ nickname))))
strip_end-line account password nickname ends w h =
    let one =
      strip_end-append (32 ∷ []) (nickname ++ ends) nickname w.some_text
        (strip_end-word nickname ends w.solid h) in
    let two =
      strip_end-append password (32 ∷ (nickname ++ ends)) (32 ∷ nickname) (omega arith) one in
    let three =
      strip_end-append (32 ∷ []) (password ++ (32 ∷ (nickname ++ ends)))
        (password ++ (32 ∷ nickname)) (omega (arith, length-append password (32 ∷ nickname))) two in
    let four =
      strip_end-append account (32 ∷ (password ++ (32 ∷ (nickname ++ ends))))
        (32 ∷ (password ++ (32 ∷ nickname))) (omega arith) three in
    strip_end-append sign_up_text (account ++ (32 ∷ (password ++ (32 ∷ (nickname ++ ends)))))
      (account ++ (32 ∷ (password ++ (32 ∷ nickname))))
      (omega (arith, length-append account (32 ∷ (password ++ (32 ∷ nickname))))) four

command_of-sign_up :
    (account password nickname : List ℕ)
    → IsWord account
    → IsWord password
    → IsWord nickname
    → command_of (sign_up_text ++ (account ++ (32 ∷ (password ++ (32 ∷ nickname)))))
      ≡ sign_up account password nickname
unfolding command_of sign_up_of after_prefix
command_of-sign_up account password nickname u v w =
    ap sign_up_of (scan_three account password nickname u v w)

module _ (memory : Memory) (sid : ℕ) (c : Chat) (p : Player) (e : find sid c.players ≡ some p) where
  -- A user types `/signup` and three words of 1 to 63 characters, with single spaces between them, and
  -- ends the line by any carriage returns and line feeds: the command is the sign-up with these
  -- words; and the request that it sends, for the strings that `ToWide` makes of the words, put into
  -- a valid packet by `AttachRaw`, makes the server's handler for a known player push one job for
  -- the database, and nothing else: its account, password and nickname are those strings, of which
  -- the first 31, 63 and 31 characters are kept, in boxes of 32, 64 and 32 characters that are zeros
  -- behind them; what the arrays of a `DBJob` held behind these boxes is still there.
  pub sign_up_line_lem :
      (widen : ℕ → List ℕ → List ℕ) (blank : Packet) (account password nickname ends : List ℕ)
      → IsWord account
      → IsWord password
      → IsWord nickname
      → AllEnds ends
      → Bounds.IsValid blank
      → let command = command_of (strip_end (sign_up_line account password nickname ends)) in
        let r = sign_up_request (widen 32 account) (widen 64 password) (widen 32 nickname) in
        let plain = take r.payload_len r.payload in
        (command ≡ sign_up account password nickname)
        × (request_of widen command ≡ some r)
        × (handle_recv memory sid (Packet.attach_raw blank plain (length plain)) c
            ≡ some (
              record c {
                queues =
                    push_job
                      (sign_up_job sid
                        (account_array memory.account (widen 32 account))
                        (password_array memory.password (widen 64 password))
                        (account_array memory.nickname (widen 32 nickname)))
                      c.queues;
              },
              [],
            ))
  unfolding request_of
  sign_up_line_lem widen blank account password nickname ends u v w h valid =
      let read =
        ap command_of (strip_end-line account password nickname ends w h)
        ∙ command_of-sign_up account password nickname u v w in
      (
        read,
        ap (request_of widen) read,
        handle_recv-sign_up_request memory sid c p e blank (widen 32 account) (widen 64 password)
            (widen 32 nickname) valid,
      )
