-- ===== src/Net/Setup/Release.antt =====
-- Socket/Poller/Server.hpp: what the destructor closes.
use mux.Prelude.{
  ℕ, suc, ◌≡◌, refl, sym, ap, ◌∙◌, ◌≢◌, inl, inr, false, Option, none, some, [], ◌∷◌, if◌then◌else◌,
  Bool-cases, eq-false_of_ne_true, ◌==◌, nat_eq, bytes_eq,
}
use mux.Prelude.Int.{ℤ, pos, negsuc, minus_one, int_beq_iff, int_eq, is_neg}
use mux.Net.System.{close, Trace, Os, sys}
use mux.Net.Setup.{Base, close_poller, destroy_base}

-- How often `close` was called on a descriptor.
unfoldable pub closes : ℤ → Trace → ℕ
closes fd [] = 0
closes fd ((close other_fd, r) ∷ t) = let n = closes fd t in if fd == other_fd then suc n else n
closes fd (_ ∷ t) = closes fd t

pub closes-close_poller :
    (os : Os) (fd : ℤ) (p : Option ℤ) (t : Trace)
    → p ≢ some fd
    → closes fd (close_poller os p t) ≡ closes fd t
unfolding close_poller closes
closes-close_poller os fd none t d = refl
closes-close_poller os fd (some p) t d = elim (Bool-cases (p == minus_one)) [
  | inl e ↦ rw e refl
  | inr e ↦
      let ne = eq-false_of_ne_true (fd == p) (λ q. d (ap some (sym ((int_beq_iff fd p).0 q)))) in
      rw (e, ne) refl
]

pub closes-minus_one :
    (os : Os) (fd : ℤ) (t : Trace)
    → is_neg fd ≡ false
    → closes fd (sys os (close minus_one) t).1 ≡ closes fd t
unfolding closes
closes-minus_one os (pos n) t h = refl
closes-minus_one os (negsuc n) t h = cc

-- The destructor does not close the listening socket, whether the constructor reached its end or
-- not, if the poller is another descriptor.
pub destroy_base-socket :
    (os : Os) (b : Base) (t : Trace)
    → is_neg b.socket ≡ false
    → b.poller ≢ some b.socket
    → closes b.socket (destroy_base os b t) ≡ closes b.socket t
unfolding destroy_base
destroy_base-socket os b t n d =
    closes-close_poller os b.socket b.poller _ d ∙ closes-minus_one os b.socket t n
