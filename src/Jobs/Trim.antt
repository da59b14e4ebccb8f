-- ===== src/Jobs/Trim.antt =====
-- `JobManager._trim`: which records leave the history, and how long it is then.
use grag.Base.{
  ℕ, max, ◌≤◌, leb, String, [], ◌∷◌, length, none, some, Bool, true, false, ◌||◌, if◌then◌else◌,
  ◌≡◌, refl, ◌⊎◌, inl, inr, Bool-cases, arith, leb→le, eq_iff, All,
}
use grag.Base.Dict.{Dict, lookup, insert, erase, has, lookup-insert, lookup-erase}
use grag.Base.Dict.Unique.{Unique, insert-Unique, erase-Unique, Unique-items, length-le_of_has}
use grag.Jobs.{JobRecord, FutureState, is_active, trim_loop}

-- The record of a job is there and says queued or running.
abbrev pub active_at : String → Dict JobRecord → Bool
active_at id jobs = elim (lookup id jobs) [ none ↦ false | some job ↦ is_active job.status ]

abbrev Shown : Dict JobRecord → Dict JobRecord → Type 0
Shown d = All (λ p. lookup p.0 d ≡ some p.1)

-- An active record stays.
lookup-trim_loop :
    (n : ℕ) (all items d : Dict JobRecord) (id : String)
    → Shown all items
    → active_at id all ≡ true
    → lookup id (trim_loop n items d) ≡ lookup id d
unfolding trim_loop
lookup-trim_loop n all [] d id s a = refl
lookup-trim_loop n all ((key, job) ∷ items) d id (e, s) a = ground (
  arith,
  lookup-trim_loop n all items d id s a,
  lookup-trim_loop n all items (erase key d) id s a,
  lookup-erase key id d,
  eq_iff key id,
  e,
)

-- What is there after the loop was there before it.
pub lookup-trim_loop_sub :
    (n : ℕ) (items d : Dict JobRecord) (id : String)
    → (lookup id (trim_loop n items d) ≡ none) ⊎ (lookup id (trim_loop n items d) ≡ lookup id d)
unfolding trim_loop
lookup-trim_loop_sub n [] d id = inr refl
lookup-trim_loop_sub n ((key, job) ∷ items) d id = ground (
  arith,
  lookup-trim_loop_sub n items d id,
  lookup-trim_loop_sub n items (erase key d) id,
  lookup-erase key id d,
  eq_iff key id,
)

trim_loop-Unique : (n : ℕ) (items d : Dict JobRecord) → Unique d → Unique (trim_loop n items d)
unfolding trim_loop
trim_loop-Unique n [] d u = u
trim_loop-Unique n ((key, job) ∷ items) d u = ground (
  arith,
  trim_loop-Unique n items d u,
  trim_loop-Unique n items (erase key d) (erase-Unique key d u),
)

-- The loop ends early within the limit, or has taken every record that is not active.
trim_loop-end :
    (n : ℕ) (all items d : Dict JobRecord)
    → Shown all items
    → ((id : String) → has id d ≡ true → (active_at id all || has id items) ≡ true)
    → (length (trim_loop n items d) ≤ n)
      ⊎ ((id : String) → has id (trim_loop n items d) ≡ true → active_at id all ≡ true)
unfolding trim_loop lookup
trim_loop-end n all [] d s h = inr (λ id t. ground (arith, h id t))
trim_loop-end n all ((key, job) ∷ items) d (e, s) h = elim (Bool-cases (leb (length d) n)) [
  | inl t ↦ rw t (inl (leb→le _ _ t))
  | inr t ↦ rw t (
      trim_loop-end n all items (if is_active job.status then d else erase key d) s
        (λ id k. ground (arith, h id, k, lookup-erase key id d, eq_iff key id, e)))
]

-- Every active record belongs to a future that is not done.
abbrev pub Owned : Dict FutureState → Dict JobRecord → Type 0
Owned futures jobs =
    Unique jobs × ((id : String) → active_at id jobs ≡ true → has id futures ≡ true)

pub trim_loop-Owned :
    (n : ℕ) (futures : Dict FutureState) (jobs : Dict JobRecord)
    → Owned futures jobs
    → Owned futures (trim_loop n jobs jobs)
trim_loop-Owned n futures jobs (u, o) = (
  trim_loop-Unique n jobs jobs u,
  λ id t. o id (ground (arith, lookup-trim_loop_sub n jobs jobs id, t)),
)

pub length-trim_loop :
    (n : ℕ) (futures : Dict FutureState) (jobs : Dict JobRecord)
    → Owned futures jobs
    → length (trim_loop n jobs jobs) ≤ max n (length futures)
length-trim_loop n futures jobs (u, o) =
    elim (trim_loop-end n jobs jobs jobs (Unique-items jobs u) (λ id t. ground (arith, t))) [
      | inl h ↦ omega arith
      | inr h ↦ omega (
        arith,
        length-le_of_has (trim_loop n jobs jobs) futures (trim_loop-Unique n jobs jobs u)
            (λ id t. o id (h id t)),
      )
    ]

-- An active record is as it was.
pub lookup-trim_loop_active :
    (n : ℕ) (jobs : Dict JobRecord) (id : String)
    → Unique jobs
    → active_at id jobs ≡ true
    → lookup id (trim_loop n jobs jobs) ≡ lookup id jobs
lookup-trim_loop_active n jobs id u a = lookup-trim_loop n jobs jobs jobs id (Unique-items jobs u) a

-- A change of one record keeps what owns the others.
pub insert-Owned :
    (futures : Dict FutureState) (jobs : Dict JobRecord) (id : String) (job : JobRecord)
    → Owned futures jobs
    → (is_active job.status ≡ true → has id futures ≡ true)
    → Owned futures (insert id job jobs)
insert-Owned futures jobs id job (u, o) h = (
  insert-Unique id job jobs u,
  λ j t. ground (arith, o j, t, h, lookup-insert id j job jobs, eq_iff id j),
)
