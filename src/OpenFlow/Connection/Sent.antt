-- ===== src/OpenFlow/Connection/Sent.antt =====
-- What the read loop makes of the messages that a controller sends.
use cs425a_computer_networks.Base.{
  ℕ, ◌≡◌, List, [], ◌∷◌, ◌++◌, Bool, true, Option, Result, ok, ◌>>=◌,
}
use cs425a_computer_networks.Bytes.{Bytes}
use cs425a_computer_networks.OpenFlow.Connection.Messages.{
  OfpMessage, message_type, pack_message, sent_message,
}

-- What is sent for a list of messages.
unfoldable pub pack_messages : List OfpMessage → Result Bytes
pack_messages [] = ok []
pack_messages (m ∷ ms) = do b ← pack_message m; bs ← pack_messages ms; ok (b ++ bs)

module _ {S : Type 0} (others : ℕ → Option (Bytes → Result OfpMessage))
    (handle : ℕ → OfpMessage → S → S × Bool) where
  -- The messages handled as they were sent, one after the other: every handler returns.
  pub data HandlesSent : List OfpMessage → S → S → Type 0 where
    all_handled : {s : S} → HandlesSent [] s s
    handled :
        {m : OfpMessage} {ms : List OfpMessage} {s after last : S}
        → handle (message_type m) (sent_message m) s ≡ (after, true)
        → HandlesSent ms after last
        → HandlesSent (m ∷ ms) s last
