-- ===== src/LinuxSample/Locks.antt =====
-- What the sample relies on of its mutex, and the two accesses that it protects.
use thing_if_thing_sdk.Prelude.{Bool, true, false, pos, ◌≡◌, refl}
use thing_if_thing_sdk.LinuxSample.{
  AirConditioner, Process, Platform, prv_get_air_conditioner_info, prv_set_air_conditioner_info,
}

-- POSIX, for an initialised mutex of the default kind: the call to lock it returns once the caller
-- holds it, and then with 0; where the caller holds it, the call to unlock it returns 0 and frees it.
pub record Working {O : Type 0} (platform : Platform O) : Type 0 where
  pub held : O → Bool
  pub locks :
      (o : O) → let (r, o') = platform.pthread_mutex_lock o in (r ≡ pos 0) × (held o' ≡ true)
  pub unlocks :
      (o : O)
      → held o ≡ true
      → let (r, o') = platform.pthread_mutex_unlock o in (r ≡ pos 0) × (held o' ≡ false)

module _ {O : Type 0} (platform : Platform O) where
  -- The surroundings after one access to the air conditioner.
  abbrev pub released : O → O
  released o = (platform.pthread_mutex_unlock (platform.pthread_mutex_lock o).1).1

  module _ (working : Working platform) (a : AirConditioner) (w : Process O) where
    pub released-free : working.held (released w.others) ≡ false
    released-free = (working.unlocks _ (working.locks w.others).1).1

    pub prv_get_air_conditioner_info_lem :
        prv_get_air_conditioner_info platform a w
        ≡ (true, w.m_air_conditioner, record w { others = released w.others })
    unfolding prv_get_air_conditioner_info
    prv_get_air_conditioner_info_lem =
        rw ((working.locks w.others).0, (working.unlocks _ (working.locks w.others).1).0) refl

    pub prv_set_air_conditioner_info_lem :
        prv_set_air_conditioner_info platform a w
        ≡ (true, record { m_air_conditioner = a; others = released w.others })
    unfolding prv_set_air_conditioner_info
    prv_set_air_conditioner_info_lem =
        rw ((working.locks w.others).0, (working.unlocks _ (working.locks w.others).1).0) refl
