-- ===== src/Programs/Hello/Answers.antt =====
-- src/kqueue.cc: what a client is answered.
use mux.Prelude.{
  ℕ, suc, ◌≡◌, refl, ◌∙◌, true, false, ◌&&◌, none, some, [], ◌∷◌, ◌++◌, length, take, take-length,
  if◌then◌else◌, arith, ◌==◌, nat_eq, bytes_eq, eq_self,
}
use mux.Prelude.Int.{ℤ, pos, negsuc, minus_one, int_eq, is_pos, is_neg}
use mux.Prelude.Map.{find, insert}
use mux.Prelude.Bytes.{Bytes, codes}
use mux.Prelude.Decimal.{print_nat, read_nat, read_nat-print_nat}
use mux.Http.Message.{read_message, read_message-lines, field_lines}
use mux.Net.System.{reading, Trace, Os, Reply, recv, send, shutdown}
use mux.Net.Client.{ClientSocket, transferred, read, close_client, destroy_client}
use mux.Net.Client.Closing.{shutdowns}
use mux.Net.Client.Closed.{closes-destroy-close}
use mux.Net.Client.Balance.{shutdowns-destroy-close}
use mux.Net.Setup.Release.{closes}
use mux.Net.Client.Transfers.{read_lem, write_lem}
use mux.Net.Poller.{Server, running}
use mux.Net.Poller.Kqueue.{next, handle_event}
use mux.Net.Poller.Kqueue.Stale.{
  plain, is_pos-minus_one, read_failed, read_succeeded, without, without-gone,
}
use mux.Programs.Hello.{may_retry, received, on_readable, on_writable, hello_response, respond}

-- The text of the program, as a message.
hello_response-reads :
    read_message hello_response
    ≡ some (record {
      start = codes "HTTP/1.1 200 OK";
      fields =
          (codes "Content-Type", codes "text/plain")
          ∷ (codes "Content-Length", print_nat (length (codes "Hello World!")))
          ∷ [];
      body = codes "Hello World!";
    })
unfolding hello_response field_lines print_nat
hello_response-reads =
    read_message-lines (codes "HTTP/1.1 200 OK")
      ((codes "Content-Type", codes "text/plain") ∷ (codes "Content-Length", codes "12") ∷ [])
      (codes "Hello World!") (omega arith)
      ((omega arith, omega arith, omega arith), ((omega arith, omega arith, omega arith), tt))

-- The bytes that the kernel took for a descriptor, oldest first.
unfoldable pub delivered : ℤ → Trace → Bytes
delivered fd [] = []
delivered fd ((send to text, r) ∷ t) =
    let before = delivered fd t in
    if to == fd then before ++ (elim r.value [ pos n ↦ take n text | negsuc n ↦ [] ]) else before
delivered fd (_ ∷ t) = delivered fd t

is_pos-is_neg : (fd : ℤ) → is_pos fd ≡ true → is_neg fd ≡ false
is_pos-is_neg (pos n) h = refl
is_pos-is_neg (negsuc n) h = cc

module _ (os : Os) where
  -- Nothing to read yet is 0, like the end of the connection.
  transferred-may_retry :
      (r : Reply) → r.value ≡ minus_one → may_retry r.errno ≡ true → transferred r ≡ pos 0
  unfolding transferred may_retry
  transferred-may_retry r v e = ground arith

  on_readable-waits :
      (c : ClientSocket) (t : Trace)
      → let r = os t (recv c.client_fd 4095) in
        (c.is_connected && c.is_reader) ≡ true
        → r.value ≡ minus_one
        → may_retry r.errno ≡ true
        → (on_readable os).on_client c t ≡ (minus_one, c, (recv c.client_fd 4095, r) ∷ t)
  unfolding on_readable received
  on_readable-waits c t b v e = rw (read_lem os 4095 c t, b, transferred-may_retry _ v e) refl

  connected : (c : ClientSocket) → (c.is_connected && c.is_reader) ≡ true → c.is_connected ≡ true
  connected c b = ground (arith, b)

  -- An event for reading behind which nothing has come yet, so that `recv` fails with EAGAIN or
  -- EWOULDBLOCK, for a client that is in the table under its own descriptor, which is positive and
  -- not the listening socket, is connected and has its interest in reading, on a system on which
  -- `shutdown` works on that descriptor: `read` returns 0, and the handler returns -1 with no call
  -- behind the `recv`, so it does not answer; the client is then taken out of the table, and
  -- `shutdown` and `close` have each been called once more on its descriptor than before.
  pub handle_event-waits :
      (fd : ℤ) (c : ClientSocket) (s : Server) (t : Trace)
      → let r = os t (recv c.client_fd 4095) in
        is_pos fd ≡ true
        → (fd == s.socket) ≡ false
        → find fd s.clients ≡ some (some c)
        → c.client_fd ≡ fd
        → (c.is_connected && c.is_reader) ≡ true
        → r.value ≡ minus_one
        → may_retry r.errno ≡ true
        → ((u : Trace) → is_neg (os u (shutdown fd)).value ≡ false)
        → ((read os 4095 c t).0 ≡ pos 0)
          × ((on_readable os).on_client c t ≡ (minus_one, c, (recv c.client_fd 4095, r) ∷ t))
          × ((s' : Server) × (t' : Trace) × (handle_event os
                  (on_readable os)
                  on_writable
                  (plain fd reading)
                  s
                  t
                ≡ running next s' t')
              × (find fd s'.clients ≡ none)
              × (shutdowns fd t' ≡ suc (shutdowns fd t))
              × (closes fd t' ≡ suc (closes fd t)))
  unfolding shutdowns closes
  handle_event-waits fd c s t p n f own b v e works =
      let r = os t (recv c.client_fd 4095) in
      let t₁ = (recv c.client_fd 4095, r) ∷ t in
      let status = on_readable-waits c t b v e in
      let (_, c₂, t₂) = close_client os c t₁ in
      let up = connected c b in
      let z = is_pos-is_neg fd p in
      let went = read_failed os (on_readable os) on_writable fd c s t p n f (rw status refl) in
      (
        rw (read_lem os 4095 c t, b, transferred-may_retry r v e) refl,
        status,
        (
          without fd c s,
          destroy_client os c₂ t₂,
          rw status at went,
          without-gone fd c s,
          shutdowns-destroy-close os fd c t₁ z ∙ (rw (up, own, eq_self fd) refl),
          closes-destroy-close os fd c t₁ own z up works,
        ),
      )

  transferred-pos : (r : Reply) → is_pos r.value ≡ true → transferred r ≡ r.value
  unfolding transferred
  transferred-pos r p = rw (is_pos-minus_one r.value p) refl

  on_readable-answers :
      (c : ClientSocket) (t : Trace)
      → let r = os t (recv c.client_fd 4095) in
        let t₁ = (recv c.client_fd 4095, r) ∷ t in
        let w = os t₁ (send c.client_fd hello_response) in
        (c.is_connected && c.is_reader) ≡ true
        → (c.is_connected && c.is_writer) ≡ true
        → is_pos r.value ≡ true
        → is_neg (transferred w) ≡ false
        → (on_readable os).on_client c t ≡ (pos 1, c, (send c.client_fd hello_response, w) ∷ t₁)
  unfolding on_readable received respond
  on_readable-answers c t b d p n =
      let r = os t (recv c.client_fd 4095) in
      let t₁ = (recv c.client_fd 4095, r) ∷ t in
      rw (read_lem os 4095 c t, b, transferred-pos r p, p, write_lem os hello_response c t₁, d, n)
        refl

  -- The kernel takes the whole text.
  transferred-all : (w : Reply) (n : ℕ) → w.value ≡ pos n → is_neg (transferred w) ≡ false
  unfolding transferred
  transferred-all w n e = rw e refl

  -- An event for reading behind which something has come, for a client that is in the table under a
  -- positive key that is not the listening socket, is connected and has both its interests, where
  -- the kernel takes the whole answer at once: the client stays in the table as it is, one `recv`
  -- and one `send` are made and nothing else, and the bytes that the kernel took for the client's
  -- descriptor are, behind those that it took before, an answer which a reader of HTTP messages
  -- reads as the status line 200, two fields and the body, whose length is the one that the length
  -- field gives.
  pub handle_event-answers :
      (fd : ℤ) (c : ClientSocket) (s : Server) (t : Trace)
      → let r = os t (recv c.client_fd 4095) in
        let t₁ = (recv c.client_fd 4095, r) ∷ t in
        let w = os t₁ (send c.client_fd hello_response) in
        is_pos fd ≡ true
        → (fd == s.socket) ≡ false
        → find fd s.clients ≡ some (some c)
        → (c.is_connected && c.is_reader) ≡ true
        → (c.is_connected && c.is_writer) ≡ true
        → is_pos r.value ≡ true
        → w.value ≡ pos (length hello_response)
        → let s' = record s { clients = insert fd (some c) s.clients } in
          let t' : Trace = (send c.client_fd hello_response, w) ∷ t₁ in
          (handle_event os (on_readable os) on_writable (plain fd reading) s t ≡ running next s' t')
          × ((answer : Bytes) × (delivered c.client_fd t' ≡ delivered c.client_fd t ++ answer)
              × (read_message answer
                  ≡ some (record {
                    start = codes "HTTP/1.1 200 OK";
                    fields =
                        (codes "Content-Type", codes "text/plain")
                        ∷ (codes "Content-Length", print_nat (length (codes "Hello World!")))
                        ∷ [];
                    body = codes "Hello World!";
                  })))
          × (read_nat (print_nat (length (codes "Hello World!")))
              ≡ some (length (codes "Hello World!")))
  unfolding delivered
  handle_event-answers fd c s t p n f b d q all =
      let r = os t (recv c.client_fd 4095) in
      let t₁ = (recv c.client_fd 4095, r) ∷ t in
      let w = os t₁ (send c.client_fd hello_response) in
      let taken = transferred-all w (length hello_response) all in
      let status = on_readable-answers c t b d q taken in
      (
        read_succeeded os (on_readable os) on_writable fd c s t p n f (rw status refl)
            ∙ rw status refl,
        (
          hello_response,
          rw (eq_self c.client_fd, all, take-length hello_response) refl,
          hello_response-reads,
        ),
        read_nat-print_nat (length (codes "Hello World!")),
      )
