-- ===== src/Client/FrontEnd.antt =====
-- How the front end (`client_front_end`, src/main_client.cpp) and the controller with its helpers
-- (src/Client.cpp) take turns by `lookForServer`, `connected`, `frontEndMutex` and `frontEndCondVar`.
use sisop2_tf.Base.{ℕ, zero, suc, ◌<◌, ◌≡◌, ◌≢◌, refl, Bool, true, false, ◌⊎◌, inl, inr, arith}

-- The front end waits with the mutex released, or searches with it.
pub data FrontPlace : Type 0 where
  resting searching : FrontPlace

-- The controller is before its first wait, works, or waits for another server.
pub data ControllerPlace : Type 0 where
  starting working asking over : ControllerPlace

pub record Flags : Type 0 where
  pub look_for_server : Bool
  pub connected : Bool
  pub front : FrontPlace
  pub controller : ControllerPlace

abbrev pub start : Flags
start = record { look_for_server = true; connected = false; front = resting; controller = starting }

-- A step of the front end: it wakes since it shall look for a server, and the search ends with one or
-- ends the program.
pub data FrontStep (f : Flags) : Flags → Type 0 where
  wakes :
      f.front ≡ resting
      → f.look_for_server ≡ true
      → FrontStep f (record f { connected = false; front = searching })
  finds :
      f.front ≡ searching
      → FrontStep f (record f { connected = true; look_for_server = false; front = resting })
  gives_up :
      f.front ≡ searching
      → FrontStep f (record f { look_for_server = false; front = resting; controller = over })

-- A step of the controller: it goes on from its first wait or from another one, which need the mutex,
-- or it asks for another server, without the mutex.
pub data ControllerStep (f : Flags) : Flags → Type 0 where
  begins :
      f.controller ≡ starting
      → f.front ≡ resting
      → f.look_for_server ≡ false
      → f.connected ≡ true
      → ControllerStep f (record f { controller = working })
  ends :
      f.controller ≡ starting
      → f.front ≡ resting
      → f.look_for_server ≡ false
      → f.connected ≡ false
      → ControllerStep f (record f { controller = over })
  goes_on :
      f.controller ≡ asking
      → f.front ≡ resting
      → f.look_for_server ≡ false
      → ControllerStep f (record f { controller = working })
  asks :
      f.controller ≡ working
      → ControllerStep f (record f { look_for_server = true; controller = asking })

-- A wait that ends by its time, after 1000 seconds, whatever `lookForServer` is: the front end searches,
-- and the controller goes on, or ends if it has no server at its first wait.
pub data LateStep (f : Flags) : Flags → Type 0 where
  searches_late : f.front ≡ resting → LateStep f (record f { connected = false; front = searching })
  begins_late :
      f.controller ≡ starting
      → f.front ≡ resting
      → f.connected ≡ true
      → LateStep f (record f { controller = working })
  ends_late :
      f.controller ≡ starting
      → f.front ≡ resting
      → f.connected ≡ false
      → LateStep f (record f { controller = over })
  goes_on_late :
      f.controller ≡ asking → f.front ≡ resting → LateStep f (record f { controller = working })

-- A state that can be reached, by the number of waits that ended by their time.
pub data Reach : ℕ → Flags → Type 0 where
  here : Reach 0 start
  by_front : {n : ℕ} {f g : Flags} → Reach n f → FrontStep f g → Reach n g
  by_controller : {n : ℕ} {f g : Flags} → Reach n f → ControllerStep f g → Reach n g
  by_time : {n : ℕ} {f g : Flags} → Reach n f → LateStep f g → Reach (suc n) g

-- While the controller works there is no search and a server.
abbrev pub IsServed : Flags → Type 0
IsServed f = (f.look_for_server ≡ false) × (f.connected ≡ true) × (f.front ≡ resting)

record Inv (f : Flags) : Type 0 where
  served : f.controller ≡ working → IsServed f
  found : f.controller ≢ over → f.look_for_server ≡ false → f.connected ≡ true
  sought : f.front ≡ searching → f.look_for_server ≡ true

FrontStep-Inv : {f g : Flags} → FrontStep f g → Inv f → Inv g
FrontStep-Inv (wakes rests looks) i = record {
  served = ground (arith, looks, i.served);
  found = ground (arith, looks);
  sought = ground (arith, looks);
}
FrontStep-Inv (finds seeks) i = record {
  served = λ works. (refl, refl, refl);
  found = λ n e. refl;
  sought = ground arith;
}
FrontStep-Inv (gives_up seeks) i = record {
  served = ground arith;
  found = ground arith;
  sought = ground arith;
}

ControllerStep-Inv : {f g : Flags} → ControllerStep f g → Inv f → Inv g
ControllerStep-Inv (begins starts rests looks has) i = record {
  served = λ works. (looks, has, rests);
  found = λ n e. has;
  sought = ground (arith, rests);
}
ControllerStep-Inv (ends starts rests looks has) i = record {
  served = ground arith;
  found = ground arith;
  sought = ground (arith, rests);
}
ControllerStep-Inv {f = f} (goes_on waits rests looks) i =
    let runs : f.controller ≢ over = ground (arith, waits) in
    record {
      served = λ works. (looks, i.found runs looks, rests);
      found = λ n e. i.found runs looks;
      sought = ground (arith, rests);
    }
ControllerStep-Inv (asks works) i = record {
  served = ground arith;
  found = ground arith;
  sought = λ e. refl;
}

start-Inv : Inv start
start-Inv = record { served = ground arith; found = ground arith; sought = ground arith }

Reach-Inv : {n : ℕ} {f : Flags} → Reach n f → n ≡ 0 → Inv f
Reach-Inv here e = start-Inv
Reach-Inv (by_front r step) e = FrontStep-Inv step (Reach-Inv r e)
Reach-Inv (by_controller r step) e = ControllerStep-Inv step (Reach-Inv r e)
Reach-Inv (by_time r step) e = absurd (omega (arith, e))

-- In every order of the steps of the front end and the controller, a state in which the controller works
-- while the front end searches, no server is connected, or a search is asked for, is reached only
-- behind a wait that ended by its time, after 1000 seconds.
pub working-IsServed :
    (n : ℕ) (f : Flags) → Reach n f → f.controller ≡ working → (0 < n) ⊎ IsServed f
working-IsServed zero f r works = inr ((Reach-Inv r refl).served works)
working-IsServed (suc n) f r works = inl (omega arith)

-- The threads do not wait for each other for ever: while the controller waits, the front end has its
-- search to end or to begin, or the controller can go on.
pub waits-IsGoing :
    (f : Flags)
    → f.controller ≢ over
    → f.controller ≢ working
    → ((g : Flags) × FrontStep f g) ⊎ ((g : Flags) × ControllerStep f g)
waits-IsGoing f runs waits =
    going f.front f.look_for_server f.connected f.controller refl refl refl refl
  where
    going :
        (front : FrontPlace) (looks has : Bool) (controller : ControllerPlace)
        → f.front ≡ front
        → f.look_for_server ≡ looks
        → f.connected ≡ has
        → f.controller ≡ controller
        → ((g : Flags) × FrontStep f g) ⊎ ((g : Flags) × ControllerStep f g)
    going searching looks has controller e₁ e₂ e₃ e₄ = inl (_, finds e₁)
    going resting true has controller e₁ e₂ e₃ e₄ = inl (_, wakes e₁ e₂)
    going resting false true starting e₁ e₂ e₃ e₄ = inr (_, begins e₄ e₁ e₂ e₃)
    going resting false false starting e₁ e₂ e₃ e₄ = inr (_, ends e₄ e₁ e₂ e₃)
    going resting false has asking e₁ e₂ e₃ e₄ = inr (_, goes_on e₄ e₁ e₂)
    going resting false has working e₁ e₂ e₃ e₄ = absurd (waits e₄)
    going resting false has over e₁ e₂ e₃ e₄ = absurd (runs e₄)
