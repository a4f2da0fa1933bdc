-- ===== src/Ui/Keeps.antt =====
-- Keys that leave a panel as it is, whatever they call.
use Prim.Native.Char.{Char}
use govisor.Common.{Bool, true, false, not, List, if◌then◌else◌}
use govisor.Server.Http.{ServiceInfo}
use govisor.Ui.Events.{
  Act, enable, disable, clear, Handled, done, passed, letter, when, service_rune,
}

module _ {P : Type 0} where
  pub data Keeps (p : P) : Handled P → Type 0 where
    acted : {acts : List Act} → Keeps p (done p acts)
    went_on : Keeps p passed

  pub Keeps-if :
      {p : P} (b : Bool) {x y : Handled P} → Keeps p x → Keeps p y → Keeps p (if b then x else y)
  Keeps-if true k l = k
  Keeps-if false k l = l

  when-Keeps : (p : P) (b : Bool) (a : Act) → Keeps p (when b p a)
  when-Keeps p true a = acted
  when-Keeps p false a = went_on

  pub service_rune-Keeps : (c : Char) (s : ServiceInfo) (p : P) → Keeps p (service_rune c s p)
  unfolding service_rune
  service_rune-Keeps c s p =
      Keeps-if (letter b'E' b'e' c) (when-Keeps p (not s.enabled) (enable s.name)) (
        Keeps-if (letter b'D' b'd' c) (when-Keeps p s.enabled (disable s.name)) (
          Keeps-if (letter b'C' b'c' c) (when-Keeps p s.failed (clear s.name))
            (Keeps-if (letter b'R' b'r' c) acted went_on)))
