-- ===== src/Net/Poller/Kqueue/Stale.antt =====
-- Socket/Poller/Server.hpp and Helpers.hpp: `closeSocket`, and an event that is stale when handled.
use mux.Prelude.{
  ◌≡◌, refl, true, false, not, Option, none, some, List, ◌∷◌, ◌==◌, nat_eq, bytes_eq, eq_self,
}
use mux.Prelude.Int.{ℤ, pos, negsuc, minus_one, int_eq, is_neg, is_pos}
use mux.Prelude.Map.{find, insert, erase, subscript, find-insert, find-erase}
use mux.Net.System.{Filter, reading, writing, Trace, Os}
use mux.Net.Client.{ClientSocket, close_client, destroy_client}
use mux.Net.Poller.{
  Handler, Server, running, faulted, and_then, close_entry, close_found, close_socket, look_up,
  call_handler,
}
use mux.Net.Poller.Kqueue.{
  Event, next, close_failed, client_event, handle_event, continue, handle_events,
}

abbrev pub plain : ℤ → Filter → Event
plain fd filter = record { ident = fd; filter = some filter; is_eof = false; is_error = false }

-- `closeSocket` on a positive descriptor whose client is in the table closes the client, takes it
-- out of the table, which destroys it, and returns whether closing it worked.
pub close_socket-found :
    (os : Os) (fd : ℤ) (c : ClientSocket) (s : Server) (t : Trace)
    → is_pos fd ≡ true
    → find fd s.clients ≡ some (some c)
    → let (r, c', t') = close_client os c t in
      close_socket os fd s t
      ≡ running
          (not (is_neg r))
          (record s { clients = erase fd s.clients })
          (destroy_client os c' t')
unfolding close_socket close_found close_entry
close_socket-found os fd c s t p e = rw (e, p) refl

look_up-found :
    (fd : ℤ) (p : Option ClientSocket) (s : Server)
    → find fd s.clients ≡ some p
    → look_up fd s ≡ (p, s)
unfolding look_up subscript
look_up-found fd p s e = rw (e, look_up, subscript) refl

pub is_pos-minus_one : (fd : ℤ) → is_pos fd ≡ true → (fd == minus_one) ≡ false
is_pos-minus_one (pos n) h = refl
is_pos-minus_one (negsuc n) h = cc

-- The table behind a handler that left the client as `c`, and `closeSocket`.
abbrev pub without : ℤ → ClientSocket → Server → Server
without fd c s = record s { clients = erase fd (insert fd (some c) s.clients) }

pub without-gone :
    (fd : ℤ) (c : ClientSocket) (s : Server) → find fd (without fd c s).clients ≡ none
without-gone fd c s = rw (find-erase fd fd (insert fd (some c) s.clients), eq_self fd) refl

module _ (os : Os) (handle_read handle_write : Handler) where
  -- An event for reading whose handler fails: the client is closed, and destroyed as it is taken
  -- out of the table.
  pub read_failed :
      (fd : ℤ) (c : ClientSocket) (s : Server) (t : Trace)
      → is_pos fd ≡ true
      → (fd == s.socket) ≡ false
      → find fd s.clients ≡ some (some c)
      → is_neg (handle_read.on_client c t).0 ≡ true
      → let (_, c₁, t₁) = handle_read.on_client c t in
        let (_, c₂, t₂) = close_client os c₁ t₁ in
        handle_event os handle_read handle_write (plain fd reading) s t
        ≡ running next (without fd c₁ s) (destroy_client os c₂ t₂)
  unfolding handle_event client_event call_handler close_failed and_then
  read_failed fd c s t p n e f =
      let (_, c₁, t₁) = handle_read.on_client c t in
      let s₁ = record s { clients = insert fd (some c₁) s.clients } in
      let found : find fd s₁.clients ≡ some (some c₁) =
        rw (find-insert fd fd (some c₁) s.clients, eq_self fd) refl in
      rw
        (
          n,
          is_pos-minus_one fd p,
          look_up-found fd (some c) s e,
          f,
          close_socket-found os fd c₁ s₁ t₁ p found,
        )
        refl

  -- An event for reading whose handler succeeds: the client is stored as the handler left it.
  pub read_succeeded :
      (fd : ℤ) (c : ClientSocket) (s : Server) (t : Trace)
      → is_pos fd ≡ true
      → (fd == s.socket) ≡ false
      → find fd s.clients ≡ some (some c)
      → is_neg (handle_read.on_client c t).0 ≡ false
      → let (_, c₁, t₁) = handle_read.on_client c t in
        handle_event os handle_read handle_write (plain fd reading) s t
        ≡ running next (record s { clients = insert fd (some c₁) s.clients }) t₁
  unfolding handle_event client_event call_handler close_failed and_then
  read_succeeded fd c s t p n e f =
      rw (n, is_pos-minus_one fd p, look_up-found fd (some c) s e, f) refl

  -- An event for writing on a descriptor that has no client, given to a handler that follows its
  -- pointer.
  write_faulted :
      (fd : ℤ) (s : Server) (t : Trace)
      → is_pos fd ≡ true
      → (fd == s.socket) ≡ false
      → find fd s.clients ≡ none
      → handle_write.on_null t ≡ none
      → handle_event os handle_read handle_write (plain fd writing) s t ≡ faulted t
  unfolding handle_event client_event call_handler and_then look_up subscript
  write_faulted fd s t p n e z =
      rw (n, is_pos-minus_one fd p, e, z, look_up, subscript, call_handler) refl

  -- If a batch begins with the event for reading and then the event for writing of a client that is
  -- in the table under a positive key, which is not the listening socket, and the read handler
  -- fails on the client, then a write handler that follows every null pointer brings the process
  -- down, whatever events come behind.
  pub handle_events-stale :
      (fd : ℤ) (c : ClientSocket) (rest : List Event) (s : Server) (t : Trace)
      → is_pos fd ≡ true
      → (fd == s.socket) ≡ false
      → find fd s.clients ≡ some (some c)
      → is_neg (handle_read.on_client c t).0 ≡ true
      → ((t : Trace) → handle_write.on_null t ≡ none)
      → (t' : Trace) × (handle_events os handle_read handle_write
            (plain fd reading ∷ plain fd writing ∷ rest)
            s
            t
          ≡ faulted t')
  unfolding handle_events and_then continue
  handle_events-stale fd c rest s t p n e f z =
      let (_, c₁, t₁) = handle_read.on_client c t in
      let (_, c₂, t₂) = close_client os c₁ t₁ in
      let t' = destroy_client os c₂ t₂ in
      let s' = without fd c₁ s in
      let stale = write_faulted fd s' t' p n (without-gone fd c₁ s) (z t') in
      (t', rw (read_failed fd c s t p n e f, stale) refl)
