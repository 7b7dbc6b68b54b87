-- ===== src/Store/Workers.antt =====
-- Store.register_worker, Store.heartbeat_worker and Store.capacity of boring_agent/store.py.
use boring_orch_agent.Base.{
  ℕ, ◌-◌, Bool, true, false, none, some, List, [], ◌∷◌, ◌++◌, find, modify, ltb, leb, ◌==◌, ◌||◌,
  map, sort_by,
}
use boring_orch_agent.Schema.{
  Db, Worker, Runtime, Result, ok, invalid_request, ◌>>◌, raise_if, reserved_total, reserved_on,
  worker_keyed,
}

abbrev is_empty {ℓ} : {A : Type ℓ} → List A → Bool
is_empty [] = true
is_empty (x ∷ xs) = false

-- INSERT … ON CONFLICT(id) DO UPDATE
upsert : Worker → List Worker → List Worker
upsert w ws = elim (find w.id ws) [ none ↦ ws ++ w ∷ [] | some _ ↦ modify w.id (λ _. w) ws ]

-- `id_length` is the length of the id's text.
unfoldable pub register_worker :
    ℕ → ℕ → List Runtime → ℕ → Bool → ℕ → ℕ → Db → Result (Unit {0} × Db)
unfolding upsert
register_worker worker_id id_length runtimes slots allow_write now pid db = do
  raise_if (id_length == 0 || ltb 100 id_length) invalid_request
  raise_if (is_empty runtimes) invalid_request
  raise_if (slots == 0 || ltb 128 slots) invalid_request
  ok (
    tt,
    record db {
      workers =
          upsert
            (record {
              id = worker_id;
              runtimes = runtimes;
              slots = slots;
              allow_write = allow_write;
              last_seen = now;
              pid = pid;
            })
            (sort_by (λ (v w : Worker). ltb v.id w.id) db.workers);
    },
  )

unfoldable pub heartbeat_worker : ℕ → ℕ → Db → Db
heartbeat_worker worker_id now db = record db {
  workers = modify worker_id (λ w. record w { last_seen = now }) db.workers;
}

pub record WorkerCapacity : Type 0 where
  pub worker : ℕ
  pub used : ℕ
  pub available : ℕ
  pub valid : Bool

pub record Capacity : Type 0 where
  pub max_active : ℕ
  pub used : ℕ
  pub available : ℕ
  pub workers : List WorkerCapacity

-- max(0, a - b) is the truncated subtraction.
unfoldable pub capacity : ℕ → Db → Capacity
unfolding sort_by
capacity now db = record {
  max_active = db.settings.max_active;
  used = reserved_total db;
  available = db.settings.max_active - reserved_total db;
  workers =
      map
        (λ (w : Worker). record {
          worker = w.id;
          used = reserved_on w.id db;
          available = w.slots - reserved_on w.id db;
          valid = leb (now - w.last_seen) db.settings.worker_ttl;
        })
        (sort_by (λ (v w : Worker). ltb v.id w.id) db.workers);
}
