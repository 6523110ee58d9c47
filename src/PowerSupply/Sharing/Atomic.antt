-- ===== src/PowerSupply/Sharing/Atomic.antt =====
-- app/power_supply/power_supply.c: the functions on `g_status` as if each ran at once.
use nimble_rtos.Common.{◌≡◌, refl, Option, none, some, List, [], ◌∷◌}
use nimble_rtos.PowerSupply.{
  PsStatus, ps_status_set_measurement, ps_status_set_state, ps_status_note_fault,
}
use nimble_rtos.PowerSupply.Sharing.{
  Job, get, set_measurement, set_state, note_fault, Access, Local, accesses_of, perform_all, Log,
  result,
}

module _ {F : Type 0} where
  abbrev pub at_once : Job F → PsStatus F → PsStatus F
  at_once get g = g
  at_once (set_measurement v i) g = ps_status_set_measurement v i g
  at_once (set_state s) g = ps_status_set_state s g
  at_once note_fault g = ps_status_note_fault g

  abbrev pub answer : Job F → PsStatus F → Option (PsStatus F)
  answer get g = some g
  answer (set_measurement v i) g = none
  answer (set_state s) g = none
  answer note_fault g = none

  -- The status after the finished calls, from `g` on.
  unfoldable pub replay : PsStatus F → Log F → PsStatus F
  replay g [] = g
  replay g ((job, r) ∷ log) = at_once job (replay g log)

  -- Each call put into `*out` the status that the calls before it had left.
  abbrev pub Explained : PsStatus F → Log F → Type 0
  Explained g [] = Unit
  Explained g ((job, r) ∷ log) = (r ≡ answer job (replay g log)) × Explained g log

  -- The accesses that are left do to `g_status` and to the caller what the call does to `g` at once.
  abbrev pub Agrees : Job F → List (Access F) → PsStatus F → Local F → PsStatus F → Type 0
  Agrees job todo now l g =
      ((perform_all todo (now, l)).0 ≡ at_once job g)
      × (result job (perform_all todo (now, l)).1 ≡ answer job g)

  pub accesses_of-Agrees :
      (job : Job F) (g : PsStatus F) (l : Local F) → Agrees job (accesses_of job) g l g
  unfolding accesses_of perform_all
  accesses_of-Agrees get g l = (refl, refl)
  accesses_of-Agrees (set_measurement v i) g l = (refl, refl)
  accesses_of-Agrees (set_state s) g l = (refl, refl)
  accesses_of-Agrees note_fault g l = (refl, refl)
