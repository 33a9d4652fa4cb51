-- ===== src/Tests/Refusals.antt =====
-- A pending response whose answer cannot wake the event loop up.
use mongoose_cpp.Prelude.{◌≡◌, refl, [], ◌∷◌, ◌++◌, none, codes, pos}
use mongoose_cpp.Mongoose.{ok, refused}
use mongoose_cpp.Table.{find}
use mongoose_cpp.Http.Endpoint.State.{System, send, user_action, new}
use mongoose_cpp.Http.Endpoint.Events.{handle_poll}
use mongoose_cpp.Http.Endpoint.Register.{on_async_request}
use mongoose_cpp.Http.Endpoint.Wakeup.{internal_server_error}
use mongoose_cpp.Http.Endpoint.Wakeup.Lookup.{find_at}
use mongoose_cpp.Http.Safety.Refusal.{refused_answered_by_poll}
use mongoose_cpp.Http.Safety.Reach.{Reach-WorldInv}
use mongoose_cpp.Http.Safety.Setups.{apply_setup}
use mongoose_cpp.Tests.Samples.{sample_env}
use mongoose_cpp.Tests.Running.{exact_fits}
use mongoose_cpp.Tests.Pending.{asked, asked_reached}

refused_answered_by_poll_example :
    ((user_action sample_env asked 0 (send (pos 200) (codes "done") refused)).signals ≡ [])
    × ((s' : System) × (handle_poll 7
            (user_action sample_env asked 0 (send (pos 200) (codes "done") refused))
          ≡ ok s')
        × (s'.calls ≡ [] ++ internal_server_error 7 ∷ [])
        × (find_at 7 0 s'.pending_responses ≡ none))
unfolding find apply_setup on_async_request new
refused_answered_by_poll_example =
    refused_answered_by_poll sample_env asked 0 ((0, 0) ∷ []) _ (pos 200) (codes "done")
      ((Reach-WorldInv sample_env exact_fits asked_reached).system_inv) refl refl refl refl
