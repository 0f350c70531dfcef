-- ===== src/Connection/Machine/Response.antt =====
-- The preparation of a response gives it a status.

use lighttpd_autothumb.Connection.Read.{Method, head, served, options, other, Connection}
use lighttpd_autothumb.Connection.Machine.{
  Pass, write_prepare, method_status, finish_content, restrict_keep_alive, finish_head,
  limit_keep_alive,
}
use lighttpd_autothumb.Connection.Machine.Edges.{if_both}
use lighttpd_autothumb.Base.{
  ◌≡◌, refl, ◌≢◌, true, false, not, ◌&&◌, ◌||◌, arith, ltb, leb, ◌==◌, if◌then◌else◌, if_cases,
}

-- The error handler is left alone, and the response keeps having a status.
abbrev pub Answered : Connection → Connection → Type 0
Answered con con' =
    (con'.in_error_handler ≡ con.in_error_handler)
    × (con'.error_handler_saved_status ≡ con.error_handler_saved_status)
    × (con'.http_status ≢ 0)

method-Same :
    (pass : Pass) (con : Connection) (m : Method)
    → ((method_status pass con m).in_error_handler ≡ con.in_error_handler)
      × ((method_status pass con m).error_handler_saved_status ≡ con.error_handler_saved_status)
unfolding method_status
method-Same pass con head = (refl, refl)
method-Same pass con served = (refl, refl)
method-Same pass con options =
    if_both
      (λ (r : Connection).
        (r.in_error_handler ≡ con.in_error_handler)
        × (r.error_handler_saved_status ≡ con.error_handler_saved_status))
      ((con.http_status == 0 || con.http_status == 200) && pass.path_given)
      (record con { http_status = 200; file_finished = true }) con (refl, refl) (refl, refl)
method-Same pass con other =
    if_both
      (λ (r : Connection).
        (r.in_error_handler ≡ con.in_error_handler)
        × (r.error_handler_saved_status ≡ con.error_handler_saved_status))
      (con.http_status == 400
        || con.http_status == 414
        || con.http_status == 505
        || con.http_status == 207)
      con (record con { http_status = 501 }) (refl, refl) (refl, refl)

prepared :
    (pass : Pass) (start con : Connection)
    → Answered start con
    → Answered start (
        limit_keep_alive pass (
          finish_head
            (restrict_keep_alive pass (finish_content con))
            (restrict_keep_alive pass (finish_content con)).method))
unfolding limit_keep_alive finish_head restrict_keep_alive finish_content
prepared pass start con a = limited _ (headed _ _ (restricted _ (content con a)))
  where
    content : (x : Connection) → Answered start x → Answered start (finish_content x)
    content x k =
        if_both (Answered start)
          (x.http_status == 204 || x.http_status == 205 || x.http_status == 304)
          (record x { file_finished = true }) _ k
          (if_both (Answered start) (x.direct && leb 400 x.http_status && ltb x.http_status 600)
            (record x { file_finished = true }) x k k)

    restricted : (x : Connection) → Answered start x → Answered start (restrict_keep_alive pass x)
    restricted x k = if_both (Answered start) x.file_finished x _ k (
        if_both (Answered start)
          (not pass.length_known || (pass.backend_connection && not pass.backend_keep_alive))
          (record x { keep_alive = false }) x k k)

    headed : (x : Connection) (m : Method) → Answered start x → Answered start (finish_head x m)
    headed x head k = k
    headed x served k = k
    headed x options k = k
    headed x other k = k

    limited : (x : Connection) → Answered start x → Answered start (limit_keep_alive pass x)
    limited x k =
        if_both (Answered start)
          (ltb pass.max_keep_alive_requests x.request_count || pass.max_keep_alive_idle == 0)
          (record x { keep_alive = false }) x k k

pub write_prepare-Answered :
    (pass : Pass) (con : Connection) → Answered con (write_prepare pass con)
unfolding write_prepare
write_prepare-Answered pass con =
    let con1 = if con.direct then method_status pass con con.method else con in
    let k =
      if_both
        (λ (r : Connection).
          (r.in_error_handler ≡ con.in_error_handler)
          × (r.error_handler_saved_status ≡ con.error_handler_saved_status))
        con.direct (method_status pass con con.method) con (method-Same pass con con.method)
        (refl, refl) in
    prepared pass con _ (
      if_cases (Answered con) (con1.http_status == 0) (record con1 { http_status = 403 }) con1
        (λ t. (k.0, k.1, (λ z. omega (arith, z)))) (λ f. (k.0, k.1, (λ z. ground (arith, f, z)))))
