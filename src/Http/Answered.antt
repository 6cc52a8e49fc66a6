-- ===== src/Http/Answered.antt =====
-- http.request of src/lua/http_library.cc from the call to the resumption of its coroutine: do_request,
-- HttpRequestFlow and the executor of the runtime.
use bernardx.Base.{ℕ, ◌≡◌, refl, true, false, some, lookup, lookup-insert, arith}
use bernardx.Machine.{Lua}
use bernardx.Timer
use bernardx.Runtime.{Runtime}
use bernardx.Runtime.Pending.{pre_yield, pin_pending_co}
use bernardx.Runtime.Executor.{CodeProvider}
use bernardx.Runtime.Wakes.{Resumes, push_resume-Resumes}
use bernardx.Http.Request.{Response, request_waits, do_request, http_request_flow, response_values}

module _ {S : Type 0} (lua : Lua S) (provider : CodeProvider) where
  -- http.request parks its coroutine under the next handle. When the client answers, in whatever
  -- state the runtime is then, if it is not shutting down and the coroutine is still parked, there
  -- is a history to its resumption with the status, the body and the error of the answer.
  pub do_request-Resumes :
      (co : ℕ) (r : Response) (rt later : Runtime S)
      → lookup rt.timers.handle_counter later.pending ≡ some co
      → later.shutting_down ≡ false
      → let h = rt.timers.handle_counter in
        ((do_request true co rt).0 ≡ request_waits h)
        × (lookup h (do_request true co rt).1.pending ≡ some co)
        × Resumes lua provider co h (response_values r) (http_request_flow h r later)
  unfolding do_request http_request_flow pre_yield pin_pending_co Timer.next_handle
  do_request-Resumes co r rt later parked e =
      let h = rt.timers.handle_counter in
      (
        refl,
        ground (arith, lookup-insert h h co rt.pending),
        push_resume-Resumes lua provider co h (response_values r) later parked e,
      )
