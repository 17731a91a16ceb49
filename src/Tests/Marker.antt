-- ===== src/Tests/Marker.antt =====
-- Examples for the self-paste marker, src-tauri/src/clipboard/ignore_hash.rs.
use cubby_clipboard.Prelude.{ℕ, ◌≡◌, refl, true, List, [], ◌∷◌, none, some, arith}
use cubby_clipboard.IgnoreHash.{
  IgnoreMarker, QueuedIgnore, IgnoreState, ignore_and_consume_self_paste,
  bind_ignore_hash_for_queued_work, is_bound_echo,
}
use cubby_clipboard.IgnoreHash.Echoes.{
  ignored_once, ignored_generations, IsRising, older_echo_ignored_again,
}

abbrev paste : IgnoreMarker
paste = record { hash = "aa"; marked_at = 100; generation = 4 }

abbrev later_paste : IgnoreMarker
later_paste = record { hash = "aa"; marked_at = 900; generation = 5 }

abbrev echo : QueuedIgnore
echo = record { hash = "aa"; generation = 4 }

abbrev later_echo : QueuedIgnore
later_echo = record { hash = "bb"; generation = 5 }

abbrev marked : IgnoreState
marked = record { marker = some paste; consumed_generation = some 3 }

abbrev marked_twice : IgnoreState
marked_twice = record { marker = some later_paste; consumed_generation = none }

abbrev unmarked : IgnoreState
unmarked = record { marker = none; consumed_generation = none }

bound : bind_ignore_hash_for_queued_work (some paste) 101 10 ≡ some echo
unfolding bind_ignore_hash_for_queued_work
bound = refl

fresh : is_bound_echo (some echo) "aa" (some 3) ≡ true
unfolding is_bound_echo
fresh = refl

abbrev echoes : List (QueuedIgnore × ℕ)
echoes = (echo, 105) ∷ (echo, 106) ∷ (later_echo, 107) ∷ []

ignored_once_example : IsRising 0 (ignored_generations 10 unmarked echoes)
ignored_once_example =
    ignored_once 10 echoes
      (omega arith, omega arith, (omega arith, omega arith, (omega arith, omega arith, tt)))

older_echo_ignored_again_example :
    let s₁ = (ignore_and_consume_self_paste unmarked (some echo) "aa" 105 10).1 in
    let s₂ = (ignore_and_consume_self_paste s₁ (some later_echo) "bb" 106 10).1 in
    (ignore_and_consume_self_paste s₂ (some echo) "aa" 107 10).0 ≡ true
older_echo_ignored_again_example =
    older_echo_ignored_again unmarked echo later_echo 105 106 107 10 refl (ground arith)
