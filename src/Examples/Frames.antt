-- ===== src/Examples/Frames.antt =====
-- STOMP messages (stomp/Stomp.cc) at concrete inputs.
use snapper.Base.{lt_bytes, eq_bytes, ◌≡◌, ◌≢◌, refl, [], ◌∷◌, ◌++◌, arith}
use snapper.Wire.Stomp.{Message, done, exhausted, read_message, write_message}
use snapper.Wire.Stomp.Frame.{Follows, read-write_message}
use snapper.Wire.Stomp.Ends.{read_message_ends}

-- A command, two headers, of which one has a colon in its value, and a body of two lines.
abbrev a_message : Message
a_message = record {
  command = b'O' ∷ b'K' ∷ [];
  headers = (b'a' ∷ [], b'1' ∷ b':' ∷ []) ∷ (b'b' ∷ [], []) ∷ [];
  body = b'x' ∷ 10 ∷ b'y' ∷ [];
}

a_message-Follows : Follows [] a_message.headers
unfolding lt_bytes eq_bytes
a_message-Follows = (tt, refl, ((refl, tt), refl, tt))

read-write_message_example :
    read_message 4 (write_message a_message ++ b'z' ∷ []) ≡ done a_message (b'z' ∷ [])
read-write_message_example =
    read-write_message a_message (b'z' ∷ []) 4 refl a_message-Follows (refl, (refl, (refl, tt)))
      (omega arith)

read_message_ends_example : read_message 3 (b'A' ∷ 10 ∷ []) ≢ exhausted
read_message_ends_example = read_message_ends 3 (b'A' ∷ 10 ∷ []) (omega arith)
