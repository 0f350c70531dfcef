-- ===== src/Connection/Machine/Ends.antt =====
-- The loop ends, and a connection that is closing stays so.
use mathlib.Core.Path.{subst}
use lighttpd_autothumb.Connection.Read.{
  State, connect, request_start, reading, request_end, read_post, handle_request, response_start,
  writing, response_end, error, close, state_index, Connection,
}
use lighttpd_autothumb.Connection.Machine.{
  Handler, finished, wait_for_fd, comeback, wait_for_event, failed_request, unknown, Pass, finish,
  handle, handle_result, step_in, step, machine,
}
use lighttpd_autothumb.Connection.Machine.Edges.{
  Edge, stays, starts, has_header, too_long, reads_failed, has_body, no_body, body_done,
  body_failed, handled, handle_failed, writes_response, write_done, write_failed, kept_alive,
  response_closes, response_disconnects, error_closes, error_disconnects, disconnects, step-Edge,
}
use lighttpd_autothumb.Base.{
  ℕ, ◌+◌, ◌*◌, ◌≤◌, ◌<◌, ◌≡◌, refl, sym, ap, ◌⊎◌, inl, inr, Bool, true, false, ◌&&◌, ◌||◌, Option,
  none, some, List, [], ◌∷◌, arith, ◌==◌, if◌then◌else◌, Bool-cases, Option-cases, length,
}

-- How far a state is from the end of a connection.
abbrev pub distance : State → ℕ
distance connect = 0
distance close = 1
distance error = 2
distance response_end = 2
distance writing = 3
distance response_start = 4
distance handle_request = 5
distance read_post = 6
distance request_end = 7
distance reading = 8
distance request_start = 9

abbrev pub rank : Connection → ℕ
rank con = 2 * distance con.state + (if con.in_error_handler then 0 else 1)

-- A pass in which a module asks to be called again, or after which a kept connection starts anew.
abbrev pub is_restart : Pass → Connection → Bool
is_restart pass con =
    (state_index con.state == 5 && elim pass.handler [ comeback ↦ true | _ ↦ false ])
    || (state_index con.state == 8 && state_index (step pass con).0.state == 1)

abbrev pub restarts : List Pass → Connection → ℕ
restarts [] con = 0
restarts (pass ∷ passes) con =
    (if is_restart pass con then 1 else 0) + restarts passes (step pass con).0

abbrev Downward : State → State → Type 0
Downward s t =
    (state_index s ≡ state_index t)
    ⊎ (distance t < distance s)
    ⊎ ((state_index s ≡ 8) × (state_index t ≡ 1))

Edge-Downward : {L : Type 0} {s t : State} → Edge L s t → Downward s t
unfolding state_index
Edge-Downward stays = inl refl
Edge-Downward starts = inr (inl (omega arith))
Edge-Downward has_header = inr (inl (omega arith))
Edge-Downward (too_long long) = inr (inl (omega arith))
Edge-Downward reads_failed = inr (inl (omega arith))
Edge-Downward has_body = inr (inl (omega arith))
Edge-Downward no_body = inr (inl (omega arith))
Edge-Downward body_done = inr (inl (omega arith))
Edge-Downward body_failed = inr (inl (omega arith))
Edge-Downward handled = inr (inl (omega arith))
Edge-Downward handle_failed = inr (inl (omega arith))
Edge-Downward writes_response = inr (inl (omega arith))
Edge-Downward write_done = inr (inl (omega arith))
Edge-Downward write_failed = inr (inl (omega arith))
Edge-Downward kept_alive = inr (inr (refl, refl))
Edge-Downward response_closes = inr (inl (omega arith))
Edge-Downward response_disconnects = inr (inl (omega arith))
Edge-Downward error_closes = inr (inl (omega arith))
Edge-Downward error_disconnects = inr (inl (omega arith))
Edge-Downward disconnects = inr (inl (omega arith))

-- Why the loop goes on in the same state.
abbrev Again : Pass → Connection → Connection × Bool → Type 0
Again pass con r =
    r.1 ≡ true
    → (pass.handler ≡ comeback)
      ⊎ ((r.0.state ≡ handle_request)
          × (con.in_error_handler ≡ false)
          × (r.0.in_error_handler ≡ true))

finish-Again : (pass : Pass) (con : Connection) → Again pass con (finish pass con)
unfolding finish
finish-Again pass con u = inr (ground (arith, u))

result-Again :
    (pass : Pass) (con : Connection) (h : Handler)
    → pass.handler ≡ h
    → Again pass con (handle_result pass con h)
unfolding handle_result
result-Again pass con finished is u = finish-Again pass con u
result-Again pass con wait_for_fd is u = absurd (cc u)
result-Again pass con comeback is u = inl is
result-Again pass con wait_for_event is u = absurd (cc u)
result-Again pass con failed_request is u = absurd (cc u)
result-Again pass con unknown is u = absurd (cc u)

step_in-Again :
    (pass : Pass) (s : State) (con : Connection)
    → (step_in pass s con).1 ≡ true
    → (s ≡ handle_request) × Again pass con (step_in pass s con)
unfolding step_in handle
step_in-Again pass connect con u = absurd (cc u)
step_in-Again pass request_start con u = absurd (cc u)
step_in-Again pass reading con u = absurd (cc u)
step_in-Again pass request_end con u = absurd (cc u)
step_in-Again pass read_post con u = absurd (cc u)
step_in-Again pass handle_request con u = (refl, result-Again pass _ pass.handler refl)
step_in-Again pass response_start con u = absurd (cc u)
step_in-Again pass writing con u = absurd (cc u)
step_in-Again pass response_end con u = absurd (cc u)
step_in-Again pass error con u = absurd (cc u)
step_in-Again pass close con u = absurd (cc u)

-- A pass ends the loop, or it is a restart, or it lowers the rank; and no pass raises it by much.
step-rank :
    (pass : Pass) (con : Connection)
    → ((step pass con).1 ≡ false) × (state_index con.state ≡ state_index (step pass con).0.state)
      ⊎ (is_restart pass con ≡ true)
      ⊎ (rank (step pass con).0 < rank con)
unfolding step state_index
step-rank pass con = elim (Bool-cases (step pass con).1) [
  | inl t ↦
      again_cases (step_in-Again pass con.state con t).0 ((step_in-Again pass con.state con t).1 t)
  | inr f ↦ elim (Edge-Downward (step-Edge pass con)) [
    | inl same ↦ inl (f, same)
    | inr (inl less) ↦ inr (inr (ground (arith, less)))
    | inr (inr (from, to)) ↦ inr (inl (ground (arith, from, to)))
  ]
]
  where
    again_cases :
        con.state ≡ handle_request
        → (pass.handler ≡ comeback)
          ⊎ ((step pass con).0.state ≡ handle_request)
            × (con.in_error_handler ≡ false)
            × ((step pass con).0.in_error_handler ≡ true)
        → ((step pass con).1 ≡ false)
            × (state_index con.state ≡ state_index (step pass con).0.state)
          ⊎ (is_restart pass con ≡ true)
          ⊎ (rank (step pass con).0 < rank con)
    again_cases is (inl h) = inr (inl (rw (is, h) refl))
    again_cases is (inr (to, was, now)) =
        inr (inr (ground (arith, ap distance is, ap distance to, was, now)))

rank-bound : (con : Connection) → rank con < 20
rank-bound con = state_cases con.state
  where
    state_cases : (s : State) → 2 * distance s + (if con.in_error_handler then 0 else 1) < 20
    state_cases connect = ground arith
    state_cases request_start = ground arith
    state_cases reading = ground arith
    state_cases request_end = ground arith
    state_cases read_post = ground arith
    state_cases handle_request = ground arith
    state_cases response_start = ground arith
    state_cases writing = ground arith
    state_cases response_end = ground arith
    state_cases error = ground arith
    state_cases close = ground arith

-- The loop stops at a pass, or it goes on behind it.
machine_next :
    (pass : Pass) (passes : List Pass) (con : Connection) (r : Option Connection)
    → machine (pass ∷ passes) con ≡ r
    → (((step pass con).1 ≡ false
        → state_index con.state ≡ state_index (step pass con).0.state
        → r ≡ some (step pass con).0))
      × ((r ≡ some (step pass con).0) ⊎ (machine passes (step pass con).0 ≡ r))
unfolding machine
machine_next pass passes con r h = elim (Bool-cases (step pass con).1) [
  | inl t ↦ ((λ f e. absurd (cc (t, f))), inr (rw (t, machine) at h))
  | inr f ↦ elim (Bool-cases (state_index con.state == state_index (step pass con).0.state)) [
    | inl e ↦ let at_end = sym (rw (f, e, machine) at h) in ((λ g i. at_end), inl at_end)
    | inr ne ↦ ((λ g i. absurd (ground (arith, ne, i))), inr (rw (f, ne, machine) at h))
  ]
]

machine-none :
    (passes : List Pass) (con : Connection)
    → machine passes con ≡ none
    → length passes ≤ rank con + 20 * restarts passes con
unfolding machine
machine-none [] con h = omega arith
machine-none (pass ∷ passes) con h =
    let next = machine_next pass passes con none h in
    elim next.1 [
      | inl is ↦ absurd (cc is)
      | inr rest ↦
          let ih = machine-none passes (step pass con).0 rest in
          elim (step-rank pass con) [
            | inl (f, same) ↦ absurd (cc (next.0 f same))
            | inr (inl restart) ↦ rw restart (omega (arith, ih, rank-bound (step pass con).0))
            | inr (inr less) ↦ ground (arith, less, ih)
          ]
    ]

-- The loop ends: of a list of passes that is longer than the rank of the connection, which is below
-- 20, and 20 for each restart, it does not use the last. A restart is a pass in which a module asks to
-- be called again, or after which a connection that is kept alive starts with its next request; so the
-- error handler, for one, does not make it run on.
pub machine-ends :
    (passes : List Pass) (con : Connection)
    → rank con + 20 * restarts passes con < length passes
    → (con' : Connection) × (machine passes con ≡ some con')
machine-ends passes con h = elim (Option-cases (machine passes con)) [
  | inl n ↦ absurd (omega (arith, h, machine-none passes con n))
  | inr found ↦ found
]

abbrev pub is_closing : State → Bool
is_closing s = state_index s == 0 || state_index s == 9 || state_index s == 10

Edge-closing : {L : Type 0} {s t : State} → Edge L s t → is_closing s ≡ true → is_closing t ≡ true
unfolding state_index
Edge-closing stays h = h
Edge-closing starts h = absurd (cc h)
Edge-closing has_header h = absurd (cc h)
Edge-closing (too_long long) h = absurd (cc h)
Edge-closing reads_failed h = refl
Edge-closing has_body h = absurd (cc h)
Edge-closing no_body h = absurd (cc h)
Edge-closing body_done h = absurd (cc h)
Edge-closing body_failed h = refl
Edge-closing handled h = absurd (cc h)
Edge-closing handle_failed h = refl
Edge-closing writes_response h = absurd (cc h)
Edge-closing write_done h = absurd (cc h)
Edge-closing write_failed h = refl
Edge-closing kept_alive h = absurd (cc h)
Edge-closing response_closes h = refl
Edge-closing response_disconnects h = refl
Edge-closing error_closes h = refl
Edge-closing error_disconnects h = refl
Edge-closing disconnects h = refl

-- Once a connection has failed or is closing, no request on it is read, handled or answered any more,
-- whatever the passes of the loop meet.
pub machine-closing :
    (passes : List Pass) (con con' : Connection)
    → is_closing con.state ≡ true
    → machine passes con ≡ some con'
    → is_closing con'.state ≡ true
unfolding machine
machine-closing [] con con' h is = absurd (cc is)
machine-closing (pass ∷ passes) con con' h is =
    elim (machine_next pass passes con (some con') is).1 [
      | inl found ↦
          let same : (step pass con).0 ≡ con' = cc found in
          subst (λ (x : Connection). is_closing x.state ≡ true) same
            (Edge-closing (step-Edge pass con) h)
      | inr rest ↦
          machine-closing passes (step pass con).0 con' (Edge-closing (step-Edge pass con) h) rest
    ]
