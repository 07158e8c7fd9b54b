-- ===== src/Net/Setup/Classes/Ends.antt =====
-- Socket/SocketBase/: what holds of every way in which a constructor can end.
use mux.Prelude.{◌≢◌, inl, inr, Bool, true, false, if◌then◌else◌, Bool-cases, nat_eq, bytes_eq}
use mux.Prelude.Int.{int_eq}
use mux.Net.System.{Trace, Sys}
use mux.Net.Setup.{Metadata, Base}
use mux.Net.Setup.Classes.{
  Members, Halt, socket_missing, reuse_refused, nonblock_refused, address_refused, listen_refused,
  complete, Built, halted, need, listen_first, bind_first, nonblocking_first, reuse_first,
  create_first,
}

-- A rule for each early return: `P` holds if it holds of the object that is left and of what
-- follows.
module _ (P : Built × Trace → Type 0) where
  pub need-Holds :
      (member : Sys Bool) (h : Halt) (rest : Base → Trace → Built × Trace) (b : Base) (t : Trace)
      → P (halted h b (member t).1)
      → P (rest b (member t).1)
      → P (need member h rest b t)
  unfolding need
  need-Holds member h rest b t early late = elim (Bool-cases (member t).0) [
    | inl e ↦ rw e late
    | inr e ↦ rw e early
  ]

  pub if-Holds : (test : Bool) (x y : Built × Trace) → P x → P y → P (if test then x else y)
  if-Holds true x y p q = p
  if-Holds false x y p q = q

-- From `create` to `listen`, where `P` may depend on the calls made: it is kept if each member
-- keeps an invariant `Q` of the object and the trace.
module _ (Q : Base → Trace → Type 0) (P : Built × Trace → Type 0) (x : Members) (m : Metadata)
    (rest : Base → Trace → Built × Trace)
    (stops : (h : Halt) (b : Base) (t : Trace) → h ≢ complete → Q b t → P (halted h b t))
    (goes : (b : Base) (t : Trace) → Q b t → P (rest b t))
    (creates : (b : Base) (t : Trace) → Q b t → Q (x.create b t).1 (x.create b t).2)
    (reuses : (b : Base) (t : Trace) → Q b t → Q b (x.set_reuse_address true b t).1)
    (unblocks : (b : Base) (t : Trace) → Q b t → Q b (x.set_nonblocking true b t).1)
    (binds : (b : Base) (t : Trace) → Q b t → Q b (x.bind b t).1)
    (listens : (b : Base) (t : Trace) → Q b t → Q b (x.listen m b t).1) where
  listen_first-Holds : (b : Base) (t : Trace) → Q b t → P (listen_first x m rest b t)
  unfolding listen_first
  listen_first-Holds b t q =
      let q' = listens b t q in
      if-Holds P m.is_stream _ _
        (need-Holds P (x.listen m b) listen_refused rest b t (stops listen_refused b _ (λ c. cc) q')
          (goes b _ q'))
        (goes b t q)

  bind_first-Holds : (b : Base) (t : Trace) → Q b t → P (bind_first x m rest b t)
  unfolding bind_first
  bind_first-Holds b t q =
      let q' = binds b t q in
      need-Holds P (x.bind b) address_refused (listen_first x m rest) b t
        (stops address_refused b _ (λ c. cc) q') (listen_first-Holds b _ q')

  nonblocking_first-Holds : (b : Base) (t : Trace) → Q b t → P (nonblocking_first x m rest b t)
  unfolding nonblocking_first
  nonblocking_first-Holds b t q =
      let q' = unblocks b t q in
      need-Holds P (x.set_nonblocking true b) nonblock_refused (bind_first x m rest) b t
        (stops nonblock_refused b _ (λ c. cc) q') (bind_first-Holds b _ q')

  reuse_first-Holds : (b : Base) (t : Trace) → Q b t → P (reuse_first x m rest b t)
  unfolding reuse_first
  reuse_first-Holds b t q =
      let q' = reuses b t q in
      need-Holds P (x.set_reuse_address true b) reuse_refused (nonblocking_first x m rest) b t
        (stops reuse_refused b _ (λ c. cc) q') (nonblocking_first-Holds b _ q')

  pub create_first-Holds : (b : Base) (t : Trace) → Q b t → P (create_first x m rest b t)
  unfolding create_first
  create_first-Holds b t q =
      let q' = creates b t q in
      if-Holds P (x.create b t).0 _ _ (reuse_first-Holds _ _ q')
        (stops socket_missing _ _ (λ c. cc) q')
