-- ===== src/Examples/Subscribers.antt =====
-- A subscriber that gets an event before and two after the answer to its call.
use subtrace_docker_wireshar.Base.{◌≡◌, refl, arith, true, List, [], ◌∷◌, ◌++◌, none, some}
use subtrace_docker_wireshar.Tail.{
  Message, announce_stats, event, config, Reply, handled, new_subscriber, init_filters, read_loop,
}
use subtrace_docker_wireshar.Tail.Subscribing.{read_loop-prints}

abbrev reply : Reply
reply = record { revision = 1; error = none }

abbrev early : List Message
early = announce_stats ∷ event (7 ∷ []) ∷ []

abbrev late : List Message
late =
    event (8 ∷ []) ∷ config (some (record { revision = 0; error = some [] })) ∷ event (9 ∷ []) ∷ []

read_loop-prints_example :
    read_loop (λ json. true) (early ++ config (some reply) ∷ late) (init_filters new_subscriber)
    ≡ handled
        (record { revision = 1; ready = true; errs = none; printed = (8 ∷ []) ∷ (9 ∷ []) ∷ [] })
read_loop-prints_example =
    read_loop-prints (λ json. true) early late reply (refl, (refl, tt)) (refl, (refl, (refl, tt)))
      (refl, (refl, tt)) (omega arith) refl
