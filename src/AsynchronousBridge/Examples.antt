-- ===== src/AsynchronousBridge/Examples.antt =====
-- Tests of the bridge on a queue, and the theorems at one.
use libspinscale.Base.{ℕ, zero, suc, ◌≡◌, refl, true, false, none, some, [], ◌∷◌, arith, inl}
use libspinscale.IoService.{IoService, IsLawful}
use libspinscale.IoService.OneQueue.{OneQueue, one_queue, one_queue-IsLawful}
use libspinscale.AsynchronousBridge.{
  Handler, application, AsynchronousBridge, new_bridge, store_complete, post_empty,
  set_async_operation_complete, wait_round, wait_for_async_operation_complete_or_io_service_stopped,
}
use libspinscale.AsynchronousBridge.Waiting.{
  Steps, here, after, stored, emptied, Sound, on, Steps-Sound, wait_round-returns,
}
use libspinscale.AsynchronousBridge.Completing.{CompletedBy, wait-CompletedBy}

abbrev queues : IoService Handler
queues = one_queue Handler

abbrev lawful : IsLawful queues
lawful = one_queue-IsLawful Handler

-- Handler 0 completes the operation, and all others leave the bridge alone.
abbrev zero_completes : ℕ → AsynchronousBridge queues → AsynchronousBridge queues
zero_completes zero b = set_async_operation_complete b
zero_completes (suc n) b = b

abbrev empty_queue : OneQueue Handler
empty_queue = record { queue = []; is_stopped = false }

abbrev fresh : AsynchronousBridge queues
fresh = new_bridge empty_queue

abbrev busy : AsynchronousBridge queues
busy =
    new_bridge
      (record { queue = application 3 ∷ application 0 ∷ application 4 ∷ []; is_stopped = false })

abbrev stopped_one : AsynchronousBridge queues
stopped_one = new_bridge (record { queue = application 0 ∷ []; is_stopped = true })

waits_on_empty_queue : wait_round zero_completes fresh ≡ none
unfolding wait_round
waits_on_empty_queue = refl

stopped_service_ends_wait :
    wait_for_async_operation_complete_or_io_service_stopped zero_completes 1 stopped_one
    ≡ some (record stopped_one { waiting = false })
unfolding wait_for_async_operation_complete_or_io_service_stopped
stopped_service_ends_wait = refl

abbrev both_steps : Steps zero_completes fresh (post_empty (store_complete fresh))
unfolding store_complete
both_steps = after (after here stored) (emptied (omega arith))

Steps-Sound_example : Sound (post_empty (store_complete fresh))
Steps-Sound_example = Steps-Sound lawful zero_completes both_steps (on refl (inl refl))

zero_completes-keeps :
    (n : ℕ) (c : AsynchronousBridge queues)
    → c.is_async_operation_complete ≡ true
    → (zero_completes n c).is_async_operation_complete ≡ true
unfolding set_async_operation_complete
zero_completes-keeps zero c e = refl
zero_completes-keeps (suc n) c e = e

wait_round-returns_example :
    (b' : AsynchronousBridge queues) × (wait_round zero_completes
        (post_empty (store_complete fresh))
      ≡ some b')
    × (b'.waiting ≡ false)
    × (b'.is_async_operation_complete ≡ true)
unfolding store_complete post_empty
wait_round-returns_example =
    wait_round-returns lawful zero_completes (post_empty (store_complete fresh))
      zero_completes-keeps empty_queue both_steps refl refl refl

wait-CompletedBy_example :
    (b' : AsynchronousBridge queues) × (wait_for_async_operation_complete_or_io_service_stopped
        zero_completes 2 busy
      ≡ some b')
    × CompletedBy (application 4 ∷ []) b'
wait-CompletedBy_example =
    wait-CompletedBy zero_completes lawful (application 0) (λ c. refl) (application 4 ∷ [])
      (application 3 ∷ []) ((λ c. refl), tt) busy refl refl refl
