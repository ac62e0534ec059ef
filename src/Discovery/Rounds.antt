-- ===== src/Discovery/Rounds.antt =====
-- The rounds of the timer of `LLDPSender`.
use cs425a_computer_networks.Base.{
  ℕ, zero, suc, ◌≡◌, refl, sym, ap, ◌∙◌, List, [], ◌∷◌, ◌++◌, Option, Result, ok, ◌>>=◌, length,
}
use mathlib.Core.List.{append-nil, append_assoc}
use cs425a_computer_networks.Discovery.Sender.{LldpSender, SendItem, timer_handler}

-- As many calls of the timer's handler, and the items that they send.
unfoldable pub ticks : ℕ → LldpSender → Result (LldpSender × List SendItem)
ticks zero s = ok (s, [])
ticks (suc n) s = do (t, item) ← timer_handler s; (u, items) ← ticks n t; ok (u, item ∷ items)

ticks_first :
    (ps qs : List SendItem) (t : Option ℕ)
    → ticks (length ps) (record { packets = ps ++ qs; timer = t })
      ≡ ok (record { packets = qs ++ ps; timer = t }, ps)
unfolding ticks timer_handler
ticks_first [] qs t = rw (append-nil qs) refl
ticks_first (p ∷ ps) qs t =
    rw (append_assoc ps qs (p ∷ []), ticks_first ps (qs ++ (p ∷ [])) t, append_assoc qs (p ∷ []) ps)
      refl

-- As many calls of the timer's handler as there are packets in the queue raise nothing, send every
-- packet of the queue once and in its order, and leave the queue and the timer as they were.
pub ticks_round : (s : LldpSender) → ticks (length s.packets) s ≡ ok (s, s.packets)
ticks_round s =
    ap (λ ps. ticks (length s.packets) (record { packets = ps; timer = s.timer }))
      (sym (append-nil s.packets))
    ∙ ticks_first s.packets [] s.timer
