-- ===== src/Host/LogTests.antt =====
-- The log on concrete lines.
use driver_hostmot.Base.{
  arith, ℕ, ◌+◌, ◌%◌, ◌^◌, ◌-◌, ◌*◌, ◌≤◌, ◌≡◌, ◌⊎◌, refl, true, some, [], ◌∷◌, ◌++◌, Text, length,
  take, suc,
}
use driver_hostmot.Host.LogRing.{
  log_line, log_slots, hm2_log_line, depth, returned, System, quiet, accepted, try, copy, publish,
  load, try_line, copy_line, publish_line, load_head, empty_ring,
}
use driver_hostmot.Host.LogRing.Line.{hm2_log_line_lem, prefix_shown, text_or_none}
use driver_hostmot.Host.LogRing.Queue.{IsRing, QueueStep, view}
use driver_hostmot.Host.LogRing.Refine.{refine}
use driver_hostmot.Host.LogRing.Order.{start, more, every_line_once}
use driver_hostmot.Host.LogRing.Drain.{NextMove, drain}

hm2_log_line_lem_example :
    (hm2_log_line (some (b'p' ∷ [])) (some (b'm' ∷ []))
      ≡ take (log_line - 2) (prefix_shown (some (b'p' ∷ [])) ++ text_or_none (some (b'm' ∷ [])))
        ++ b'\n' ∷ [])
    × (suc (length (hm2_log_line (some (b'p' ∷ [])) (some (b'm' ∷ [])))) ≤ log_line)
hm2_log_line_lem_example = hm2_log_line_lem (some (b'p' ∷ [])) (some (b'm' ∷ []))

abbrev no_lines : ℕ → Text
no_lines i = []

abbrev a_line : Text
a_line = b'a' ∷ b'\n' ∷ []

abbrev tried : System
tried = (try_line a_line (empty_ring no_lines)).1

abbrev in_place : System
in_place = copy_line a_line tried

refine_example : IsRing in_place × QueueStep (view tried) quiet (view in_place)
unfolding try_line copy_line
refine_example = refine tried quiet in_place (ground arith) (copy a_line refl)

abbrev seen : System
seen = load_head (publish_line in_place)

every_line_once_example :
    (seen.out ++ (view seen).waiting ≡ a_line ∷ [])
    × (length (view seen).waiting ≤ log_slots)
    × (seen.dropped % 2 ^ 64 ≡ 0 % 2 ^ 64)
unfolding try_line copy_line publish_line load_head
every_line_once_example =
    (every_line_once no_lines (quiet ∷ quiet ∷ accepted a_line ∷ quiet ∷ [])
      (load_head (publish_line in_place))
      (more
        (more (more (more start (try a_line refl refl)) (copy a_line refl)) (publish a_line refl))
        (load refl)))

abbrev stopping : System
stopping = record (empty_ring (λ i. a_line)) { head = 1; stop = true }

drain_example :
    (length (quiet ∷ []) ≤ 2 * depth 1 0 + 5)
    × ((((load_head stopping).writer ≡ returned) × ((load_head stopping).out ≡ [] ++ a_line ∷ []))
        ⊎ NextMove (load_head stopping))
unfolding load_head
drain_example =
    drain stopping (load_head stopping) (quiet ∷ []) (ground arith) (more start (load refl))
