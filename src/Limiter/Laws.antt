-- ===== src/Limiter/Laws.antt =====
-- The counter behind one call of the limiter.
use qa_lab.Base.{
  ℕ, ◌+◌, ◌-◌, ◌≡◌, refl, Bool, true, false, List, [], ◌∷◌, ◌==◌, ltb, if◌then◌else◌, arith,
}
use qa_lab.Schema.{Db}
use qa_lab.Program.{ok, ◌>>=◌}
use qa_lab.Limiter.{counter, set_counter, put_counter, acquire, release}

pub counter-set_counter :
    (j k v : ℕ) (m : List (ℕ × ℕ))
    → counter j (set_counter k v m) ≡ (if k == j then v else counter j m)
unfolding counter set_counter
counter-set_counter j k v [] = refl
counter-set_counter j k v ((i, n) ∷ m) = ground (arith, counter-set_counter j k v m)

-- A slot is granted exactly when fewer than the limit are taken, and then it is counted; a
-- refusal leaves every counter as it was.
pub record Acquired (max_per_org organization_id : ℕ) (db db' : Db) (granted : Bool) : Type 0 where
  pub decided : granted ≡ ltb (counter organization_id db.running) max_per_org
  pub counted :
      (o : ℕ)
      → counter o db'.running
        ≡ counter o db.running + (if granted then (if organization_id == o then 1 else 0) else 0)

pub acquire_lem :
    (max_per_org organization_id : ℕ) (db : Db)
    → (granted : Bool) × (v : ℕ) × (acquire max_per_org organization_id db
        ≡ ok granted (put_counter organization_id v db))
      × Acquired max_per_org organization_id db (put_counter organization_id v db) granted
unfolding acquire ◌>>=◌
acquire_lem max_per_org organization_id db =
    let n = counter organization_id db.running + 1 in
    (
      if ltb max_per_org n then false else true,
      if ltb max_per_org n then n - 1 else n,
      refl,
      record {
        decided = ground arith;
        counted = λ o. ground (
          arith,
          counter-set_counter o organization_id (if ltb max_per_org n then n - 1 else n) db.running,
        );
      },
    )

-- A release gives back one slot of this organization.
pub release_lem :
    (organization_id : ℕ) (db : Db)
    → release organization_id db
      ≡ ok tt (put_counter organization_id (counter organization_id db.running - 1) db)
unfolding release ◌>>=◌
release_lem organization_id db = refl
