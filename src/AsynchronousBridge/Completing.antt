-- ===== src/AsynchronousBridge/Completing.antt =====
-- A wait whose own thread runs the handler that completes the operation.
use libspinscale.Base.{
  ℕ, suc, ◌≡◌, refl, ◌∙◌, ap, true, false, some, List, [], ◌∷◌, ◌++◌, arith, length,
}
use libspinscale.IoService.{IoService, IsLawful}
use libspinscale.AsynchronousBridge.{
  Handler, empty_handler, AsynchronousBridge, store_complete, post_empty,
  set_async_operation_complete, exited_because_io_service_stopped, check, run_handler, wait_round,
  wait_for_async_operation_complete_or_io_service_stopped,
}

module _ {I : IoService Handler} where
  -- The wait is over, the service still runs, and these handlers wait in it.
  pub record CompletedBy (rest : List Handler) (b' : AsynchronousBridge I) : Type 0 where
    pub complete : b'.is_async_operation_complete ≡ true
    pub not_stopped : exited_because_io_service_stopped b' ≡ false
    pub over : b'.waiting ≡ false
    pub pending : I.pending b'.io_service ≡ rest ++ empty_handler ∷ []

module _ {I : IoService Handler}
    (run_application : ℕ → AsynchronousBridge I → AsynchronousBridge I) where
  -- Handlers that leave the bridge and its service alone.
  abbrev pub AllQuiet : List Handler → Type 0
  AllQuiet [] = Unit
  AllQuiet (h ∷ hs) =
      ((c : AsynchronousBridge I) → run_handler run_application h c ≡ c) × AllQuiet hs

  round :
      (IsLawful I)
      → (b : AsynchronousBridge I) (h : Handler) (hs : List Handler)
      → I.stopped b.io_service ≡ false
      → I.pending b.io_service ≡ h ∷ hs
      → (s : I.State) × (wait_round run_application b
          ≡ some (check (run_handler run_application h (record b { io_service = s }))))
        × (I.pending s ≡ hs)
        × (I.stopped s ≡ false)
  unfolding wait_round
  round law b h hs e q =
      let (s, ran, rest, open_) = law.run_one-pending b.io_service h hs e q in
      (s, rw (ran, wait_round), rest, open_)

  check-waiting :
      (b : AsynchronousBridge I)
      → b.is_async_operation_complete ≡ false
      → I.stopped b.io_service ≡ false
      → (check b).waiting ≡ true
  unfolding check
  check-waiting b c e = rw (c, e) refl

  wait-ends :
      (fuel : ℕ) (b b' : AsynchronousBridge I)
      → wait_round run_application b ≡ some b'
      → b'.waiting ≡ false
      → wait_for_async_operation_complete_or_io_service_stopped run_application (suc fuel) b
        ≡ some b'
  unfolding wait_for_async_operation_complete_or_io_service_stopped
  wait-ends fuel b b' e w = ground (arith, e, w)

  wait-goes_on :
      (fuel : ℕ) (b b' : AsynchronousBridge I)
      → wait_round run_application b ≡ some b'
      → b'.waiting ≡ true
      → wait_for_async_operation_complete_or_io_service_stopped run_application (suc fuel) b
        ≡ wait_for_async_operation_complete_or_io_service_stopped run_application fuel b'
  unfolding wait_for_async_operation_complete_or_io_service_stopped
  wait-goes_on fuel b b' e w = ground (arith, e, w)

  -- Let the service not be stopped, the operation be incomplete, and the service's queue hold
  -- handlers that leave the bridge alone, then one that sets the operation complete, then others.
  -- Then the wait returns within one round for each handler up to that one, with the operation
  -- complete, not because of a stopped service, and with the others and the empty handler still
  -- pending.
  pub wait-CompletedBy :
      (IsLawful I)
      → (h : Handler)
      → ((c : AsynchronousBridge I)
          → run_handler run_application h c ≡ set_async_operation_complete c)
      → (rest hs : List Handler) → AllQuiet hs
      → (b : AsynchronousBridge I) → I.stopped b.io_service ≡ false
      → I.pending b.io_service ≡ hs ++ h ∷ rest
      → b.is_async_operation_complete ≡ false
      → (b' : AsynchronousBridge I) × (wait_for_async_operation_complete_or_io_service_stopped
            run_application
            (suc (length hs))
            b
          ≡ some b')
        × CompletedBy rest b'
  unfolding check store_complete post_empty set_async_operation_complete
      exited_because_io_service_stopped
  wait-CompletedBy law h completes rest [] quiet b e q c =
      let (s, ran, left, open_) = round law b h rest e q in
      let b1 : AsynchronousBridge I = record b { io_service = s } in
      let ran' : wait_round run_application b ≡ some (check (set_async_operation_complete b1)) =
        ran ∙ ap (λ (d : AsynchronousBridge I). some (check d)) (completes b1) in
      (
        check (set_async_operation_complete b1),
        wait-ends 0 b (check (set_async_operation_complete b1)) ran' refl,
        record {
          complete = refl;
          not_stopped = law.stopped-post empty_handler s ∙ open_;
          over = refl;
          pending =
              law.pending-post empty_handler s
              ∙ ap (λ (l : List Handler). l ++ empty_handler ∷ []) left;
        },
      )
  wait-CompletedBy law h completes rest (k ∷ hs) quiet b e q c =
      let (s, ran, left, open_) = round law b k (hs ++ h ∷ rest) e q in
      let b1 : AsynchronousBridge I = record b { io_service = s } in
      let ran' : wait_round run_application b ≡ some (check b1) =
        ran ∙ ap (λ (d : AsynchronousBridge I). some (check d)) (quiet.0 b1) in
      let (b', later, done) =
        wait-CompletedBy law h completes rest hs quiet.1 (check b1) open_ left c in
      let going = check-waiting b1 c open_ in
      (b', wait-goes_on (suc (length hs)) b (check b1) ran' going ∙ later, done)
