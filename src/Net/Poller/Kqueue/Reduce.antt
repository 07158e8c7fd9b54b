-- ===== src/Net/Poller/Kqueue/Reduce.antt =====
-- Socket/Poller/Helpers.hpp, where kqueue is: the coroutine `reduceEvents`, which handles one event
-- in up to three resumptions. The coroutine shares the client
-- with the table, so its resumptions are run one after the other with no other call between them.
use mux.Prelude.{ℕ, zero, suc, Option, none, some, if◌then◌else◌, ◌==◌, nat_eq, bytes_eq}
use mux.Prelude.Int.{ℤ, minus_one, int_eq, is_neg}
use mux.Net.System.{Filter, reading, writing, Trace, Os}
use mux.Net.Client.{ClientSocket, new_client, accept_client}
use mux.Net.Poller.{
  Handler, Server, Run, running, and_then, close_socket, admit, look_up, call_handler,
}

-- Where the coroutine is suspended: before its first statement, after a new connection, after a
-- handler that returned a status, or after `closeSocket`.
pub data Point : Type 0 where
  at_start connected closed : Point
  handled : ℤ → Point

pub data Progress : Type 0 where
  suspended : Point → Progress
  ended : Progress

unfoldable pub after_accept : ℤ → Progress
after_accept fd = if fd == minus_one then ended else suspended connected

module _ (os : Os) (handle_read handle_write : Handler) (client : ℤ) (filter : Option Filter) where
  unfoldable pub new_connection : Server → Trace → Run Progress
  unfolding and_then after_accept
  new_connection s t =
      let accepted = accept_client os (new_client s.poller s.socket) t in
      and_then (admit os accepted s) (λ _ s t. running (after_accept accepted.0) s t)

  unfoldable pub call_by_filter :
      Option Filter → Option ClientSocket → Server → Trace → Run Progress
  unfolding and_then call_handler
  call_by_filter (some reading) p s t =
      and_then (call_handler handle_read client p s t)
        (λ status s t. running (suspended (handled status)) s t)
  call_by_filter (some writing) p s t =
      and_then (call_handler handle_write client p s t)
        (λ status s t. running (suspended (handled status)) s t)
  call_by_filter none p s t = running ended s t

  -- One resumption of the coroutine.
  unfoldable pub resume_reduce : Point → Server → Trace → Run Progress
  unfolding and_then new_connection call_by_filter
  resume_reduce at_start s t =
      let (p, s₁) = look_up client s in
      if client == s.socket then new_connection s t else call_by_filter filter p s₁ t
  resume_reduce connected s t = running ended s t
  resume_reduce (handled status) s t =
      if is_neg status
      then and_then (close_socket os client s t) (λ _ s t. running (suspended closed) s t)
      else running ended s t
  resume_reduce closed s t = running ended s t

  -- At most `count` resumptions.
  unfoldable pub drive : ℕ → Progress → Server → Trace → Run Progress
  unfolding and_then resume_reduce
  drive n ended s t = running ended s t
  drive zero (suspended p) s t = running (suspended p) s t
  drive (suc count) (suspended p) s t = and_then (resume_reduce p s t) (drive count)

  unfoldable pub reduce_events : ℕ → Server → Trace → Run Progress
  unfolding drive
  reduce_events count s t = drive count (suspended at_start) s t
