-- ===== src/Tests/Console.antt =====
-- The interactive client on typed lines.
use iocp_chatserver.Prelude.{
  ℕ, ◌≡◌, inl, inr, refl, List, [], ◌∷◌, some, arith, length, take, find, replicate,
}
use iocp_chatserver.Packet
use iocp_chatserver.Packet.Bounds
use iocp_chatserver.Db.{push_job}
use iocp_chatserver.Chat.Handlers.{handle_recv}
use iocp_chatserver.Client.{sign_up_request}
use iocp_chatserver.Client.Boxes.{account_array, password_array}
use iocp_chatserver.Client.SignUp.{sign_up_job}
use iocp_chatserver.Client.Console.{
  strip_end, atoi, after_prefix, skip_spaces, digits, command_of, request_of, sign_up, chat, enter,
  unknown,
}
use iocp_chatserver.Client.Console.Typing.{sign_up_line, sign_up_line_lem}
use iocp_chatserver.Client.Console.Program.{batches}
use iocp_chatserver.Client.Console.Program.Waiting.{handles, all_handles, AllShort, batches_lem}
use iocp_chatserver.Tests.Content.{memory, ann, lobby}

-- `/enter -1`
enter_wraps :
    command_of (b'/' ∷ b'e' ∷ b'n' ∷ b't' ∷ b'e' ∷ b'r' ∷ 32 ∷ b'-' ∷ b'1' ∷ []) ≡ enter 65535
unfolding command_of atoi after_prefix skip_spaces digits
enter_wraps = refl

slash_unknown : command_of (b'/' ∷ b'q' ∷ []) ≡ unknown
unfolding command_of after_prefix
slash_unknown = refl

text_is_chat : command_of (b'q' ∷ []) ≡ chat (b'q' ∷ [])
unfolding command_of after_prefix
text_is_chat = refl

-- A text of ASCII characters in UTF-16.
abbrev wide : List ℕ → List ℕ
wide [] = 0 ∷ 0 ∷ []
wide (b ∷ bs) = b ∷ 0 ∷ wide bs

abbrev widen : ℕ → List ℕ → List ℕ
widen count text = wide text

sign_up_line_lem_example :
    let command =
      command_of
        (strip_end (sign_up_line (66 ∷ []) (112 ∷ 119 ∷ []) (67 ∷ []) (b'\r' ∷ b'\n' ∷ []))) in
    let r = sign_up_request (wide (66 ∷ [])) (wide (112 ∷ 119 ∷ [])) (wide (67 ∷ [])) in
    let plain = take r.payload_len r.payload in
    (command ≡ sign_up (66 ∷ []) (112 ∷ 119 ∷ []) (67 ∷ []))
    × (request_of widen command ≡ some r)
    × (handle_recv memory 7 (Packet.attach_raw Packet.init plain (length plain)) lobby
        ≡ some (
          record lobby {
            queues =
                push_job
                  (sign_up_job 7
                    (account_array (replicate 66 204) (wide (66 ∷ [])))
                    (password_array (replicate 130 204) (wide (112 ∷ 119 ∷ [])))
                    (account_array (replicate 66 204) (wide (67 ∷ []))))
                  lobby.queues;
          },
          [],
        ))
unfolding find
sign_up_line_lem_example =
    sign_up_line_lem memory 7 lobby ann refl widen Packet.init (66 ∷ []) (112 ∷ 119 ∷ []) (67 ∷ [])
      (b'\r' ∷ b'\n' ∷ [])
      (record { some_text = omega arith; short = omega arith; solid = (refl, tt) })
      (record { some_text = omega arith; short = omega arith; solid = (refl, (refl, tt)) })
      (record { some_text = omega arith; short = omega arith; solid = (refl, tt) })
      (inr refl, (inl refl, tt)) Bounds.init-IsValid

-- 130 bots: two calls of 64 handles and one of two.
batches_lem_example : (all_handles (batches 3 0 130) ≡ handles 0 130) × AllShort (batches 3 0 130)
batches_lem_example = batches_lem 3 0 130 (omega arith)
