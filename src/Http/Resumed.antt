-- ===== src/Http/Resumed.antt =====
-- How often the flows of src/lua/http_library.cc submit the resumption of the coroutine that waits for
-- them: HttpRequestFlow, WsConnectFlow, WsSendFlow and WsCloseFlow.
use bernardx.Base.{
  ℕ, suc, ◌+◌, ◌≡◌, refl, ap, ◌∙◌, Bool, true, false, ◌||◌, List, [], ◌∷◌, ◌++◌, Option, none, some,
  Bytes, codes, if◌then◌else◌, ◌==◌, ==_refl, if_both, if_not, arith,
}
use bernardx.Value.{LuaValue, string}
use bernardx.Runtime.{
  Runtime, Job, task_job, resume_job, resume_direct_job, release_job, require_job, load_file_job,
  load_module_flow, load_file_flow, interrupt_job, timer_job, push_resume, push_task, schedule,
  deliver,
}
use bernardx.Runtime.Tasks.{call_lua_function}
use bernardx.Http.Request.{Response, http_request_flow}
use bernardx.Http.Socket.{
  Called, error_call, Socket, Handshake, handshake_failed, handshake_timed_out, handshake_refused,
  handshake_done, handshake_end, notify, connect_failed, ws_resume, ws_connect_flow, ws_send_flow,
  ws_close_flow,
}

abbrev one_for : ℕ → ℕ → ℕ
one_for h k = if k == h then 1 else 0

module _ {S : Type 0} where
  -- The submitted resumptions of a handle.
  unfoldable pub resumptions : ℕ → List (ℕ × Job S) → ℕ
  resumptions h [] = 0
  resumptions h ((due, resume_job k args) ∷ jobs) = one_for h k + resumptions h jobs
  resumptions h ((due, job) ∷ jobs) = resumptions h jobs

  abbrev pub waiting_resumptions : ℕ → Runtime S → ℕ
  waiting_resumptions h rt = resumptions h rt.queue

  resumptions-++ :
      (h : ℕ) (xs ys : List (ℕ × Job S))
      → resumptions h (xs ++ ys) ≡ resumptions h xs + resumptions h ys
  unfolding resumptions
  resumptions-++ h [] ys = omega arith
  resumptions-++ h ((due, resume_job k args) ∷ xs) ys = omega (arith, resumptions-++ h xs ys)
  resumptions-++ h ((due, task_job t) ∷ xs) ys = resumptions-++ h xs ys
  resumptions-++ h ((due, resume_direct_job k f) ∷ xs) ys = resumptions-++ h xs ys
  resumptions-++ h ((due, release_job refs) ∷ xs) ys = resumptions-++ h xs ys
  resumptions-++ h ((due, require_job k s n) ∷ xs) ys = resumptions-++ h xs ys
  resumptions-++ h ((due, load_file_job k s n) ∷ xs) ys = resumptions-++ h xs ys
  resumptions-++ h ((due, load_module_flow k n) ∷ xs) ys = resumptions-++ h xs ys
  resumptions-++ h ((due, load_file_flow k n) ∷ xs) ys = resumptions-++ h xs ys
  resumptions-++ h ((due, interrupt_job) ∷ xs) ys = resumptions-++ h xs ys
  resumptions-++ h ((due, timer_job j) ∷ xs) ys = resumptions-++ h xs ys

  -- PushResume of a runtime that is not shutting down.
  resumptions-push_resume :
      (h : ℕ) (args : List LuaValue) (rt : Runtime S)
      → rt.shutting_down ≡ false
      → waiting_resumptions h (push_resume h args rt) ≡ suc (waiting_resumptions h rt)
  unfolding push_resume schedule resumptions
  resumptions-push_resume h args rt e =
      if_not (λ (ru : Runtime S). waiting_resumptions h ru ≡ suc (waiting_resumptions h rt))
        rt.shutting_down _ _ e
        (resumptions-++ h rt.queue ((rt.clock + 0, resume_job h args) ∷ [])
          ∙ ground (arith, ==_refl h))

  -- A call of a callback submits a task and no resumption.
  resumptions-call_lua_function :
      (h f : ℕ) (args : List LuaValue) (rt : Runtime S)
      → waiting_resumptions h (call_lua_function f args rt) ≡ waiting_resumptions h rt
  unfolding call_lua_function push_task deliver schedule resumptions
  resumptions-call_lua_function h f args rt =
      if_both (λ (ru : Runtime S). waiting_resumptions h ru ≡ waiting_resumptions h rt)
        (rt.shutting_down || rt.interrupted) refl (resumptions-++ h rt.queue _ ∙ omega arith)

  notify-keeps :
      (h : ℕ) (callback : Option ℕ) (args : List LuaValue) (c : Called) (w : Socket S)
      → (waiting_resumptions h (notify callback args c w).runtime ≡ waiting_resumptions h w.runtime)
        × ((notify callback args c w).runtime.shutting_down ≡ w.runtime.shutting_down)
  unfolding call_lua_function push_task deliver schedule
  notify-keeps h none args c w = (refl, refl)
  notify-keeps h (some f) args c w = (
    resumptions-call_lua_function h f args w.runtime,
    if_both (λ (ru : Runtime S). ru.shutting_down ≡ w.runtime.shutting_down)
        (w.runtime.shutting_down || w.runtime.interrupted) refl refl,
  )

  -- Of a runtime that is not shutting down, one more resumption.
  abbrev OneMore : ℕ → Runtime S → Runtime S → Type 0
  OneMore h rt ru = waiting_resumptions h ru ≡ suc (waiting_resumptions h rt)

  ws_resume-OneMore :
      (h : ℕ) (ok : Bool) (err : Bytes) (rt : Runtime S)
      → rt.shutting_down ≡ false
      → OneMore h rt (ws_resume h ok err rt)
  unfolding ws_resume
  ws_resume-OneMore h ok err rt e = resumptions-push_resume h _ rt e

  connect_failed-OneMore :
      (h : ℕ) (message : Bytes) (w : Socket S)
      → w.runtime.shutting_down ≡ false
      → OneMore h w.runtime (connect_failed h message w).runtime
  connect_failed-OneMore h message w e =
      let c = w.conn in
      let k =
        notify-keeps h c.on_error_ref (string message ∷ []) (error_call message)
          (record w { conn = record c { closed = true; client = none } }) in
      ws_resume-OneMore h false message _ (k.1 ∙ e) ∙ ap suc k.0

  handshake_end-OneMore :
      (h : ℕ) (a : Handshake) (w : Socket S)
      → w.runtime.shutting_down ≡ false
      → OneMore h w.runtime (handshake_end h a w).0.runtime
  handshake_end-OneMore h handshake_failed w e =
      connect_failed-OneMore h (codes "connect failed") w e
  handshake_end-OneMore h handshake_timed_out w e =
      connect_failed-OneMore h (codes "connect timeout") w e
  handshake_end-OneMore h (handshake_refused message) w e = connect_failed-OneMore h message w e
  handshake_end-OneMore h handshake_done w e = ws_resume-OneMore h true [] w.runtime e

  by_closed :
      (h : ℕ) (a : Handshake) (w : Socket S)
      → w.runtime.shutting_down ≡ false
      → (closed : Bool)
      → waiting_resumptions h (if closed then (w, false) else handshake_end h a w).0.runtime ≡ (
          if closed then waiting_resumptions h w.runtime else suc (waiting_resumptions h w.runtime))
  by_closed h a w e true = refl
  by_closed h a w e false = handshake_end-OneMore h a w e

  connect_flow-resumes :
      (h : ℕ) (a : Handshake) (w : Socket S)
      → w.runtime.shutting_down ≡ false
      → waiting_resumptions h (ws_connect_flow h a w).0.runtime ≡ (
          if w.conn.closed
          then waiting_resumptions h w.runtime
          else suc (waiting_resumptions h w.runtime))
  unfolding ws_connect_flow
  connect_flow-resumes h a w e = by_closed h a w e w.conn.closed

  -- In a runtime that is not shutting down the flow of a request, of send and of close submits one
  -- resumption of the coroutine that waits for it, whatever the client answers and whatever became
  -- of the connection. The flow of connect does so exactly if the connection was not closed while
  -- the handshake was in flight; else it submits none.
  pub flows-resume :
      (h : ℕ) (r : Response) (a : Handshake) (sent : Bool) (rt : Runtime S) (w : Socket S)
      → rt.shutting_down ≡ false
      → w.runtime.shutting_down ≡ false
      → (waiting_resumptions h (http_request_flow h r rt) ≡ suc (waiting_resumptions h rt))
        × (waiting_resumptions h (ws_send_flow h sent w).runtime
            ≡ suc (waiting_resumptions h w.runtime))
        × (waiting_resumptions h (ws_close_flow h w).runtime
            ≡ suc (waiting_resumptions h w.runtime))
        × (waiting_resumptions h (ws_connect_flow h a w).0.runtime ≡ (
            if w.conn.closed
            then waiting_resumptions h w.runtime
            else suc (waiting_resumptions h w.runtime)))
  unfolding http_request_flow ws_send_flow ws_close_flow
  flows-resume h r a sent rt w e f = (
    resumptions-push_resume h _ rt e,
    ws_resume-OneMore h _ _ w.runtime f,
    ws_resume-OneMore h true [] w.runtime f,
    connect_flow-resumes h a w f,
  )
