-- ===== src/Downlink/Apart.antt =====
-- The web sockets of the managers, and the ids of their streams.
use woeful.Base.{
  ℕ, ◌≡◌, ◌≢◌, sym, subst, ◌∙◌, ◌==◌, ==_iff, Bool-cases, inl, inr, some, [], ◌∷◌, All, IsU32,
}
use woeful.Base.Map.{Map, find, insert, erase}
use woeful.Manager.{WebSocketManager}

-- No two managers have one web socket.
abbrev pub IsApart : Map WebSocketManager → Type 0
IsApart [] = Unit {0}
IsApart (e ∷ rest) = All (λ f. f.1.ws ≢ e.1.ws) rest × IsApart rest

-- Every stream id is a `uint32_t`.
abbrev pub HasIds : ℕ × WebSocketManager → Type 0
HasIds e = All (λ p. IsU32 p.0) e.1.streams

pub record IsAddressed (managers : Map WebSocketManager) : Type 0 where
  pub apart : IsApart managers
  pub ids : All HasIds managers

module _ {ℓ κ} {V : Type ℓ} (P : ℕ × V → Type κ) where
  pub All-find : (k : ℕ) (v : V) (m : Map V) → All P m → find k m ≡ some v → P (k, v)
  unfolding find
  All-find k v [] a h = cc
  All-find k v ((j, w) ∷ m) a h = elim (Bool-cases (j == k)) [
    | inl e ↦
        let here : some w ≡ some v = rw e at h in
        let same : (j, w) ≡ (k, v) = cc ((==_iff j k).0 e, here) in subst (λ x. P x) same a.0
    | inr e ↦ All-find k v m a.1 (rw e at h)
  ]

  pub All-insert : (k : ℕ) (v : V) (m : Map V) → All P m → P (k, v) → All P (insert k v m)
  unfolding insert
  All-insert k v [] a p = (p, a)
  All-insert k v ((j, w) ∷ m) a p = elim (Bool-cases (j == k)) [
    | inl e ↦ rw (insert, e) (p, a.1)
    | inr e ↦ rw (insert, e) (a.0, All-insert k v m a.1 p)
  ]

  pub All-erase : (k : ℕ) (m : Map V) → All P m → All P (erase k m)
  unfolding erase
  All-erase k [] a = a
  All-erase k ((j, w) ∷ m) a = elim (Bool-cases (j == k)) [
    | inl e ↦ rw (erase, e) (All-erase k m a.1)
    | inr e ↦ rw (erase, e) (a.0, All-erase k m a.1)
  ]

-- A manager with a web socket that no other has.
pub insert_free-IsApart :
    (id : ℕ) (m : WebSocketManager) (managers : Map WebSocketManager)
    → All (λ e. e.1.ws ≢ m.ws) managers
    → IsApart managers
    → IsApart (insert id m managers)
unfolding insert
insert_free-IsApart id m [] free a = (tt, tt)
insert_free-IsApart id m ((j, n) ∷ managers) free a = elim (Bool-cases (j == id)) [
  | inl e ↦ rw (insert, e) (free.1, a.1)
  | inr e ↦
      rw (insert, e)
        (
          All-insert (λ f. f.1.ws ≢ n.ws) id m managers a.0 (λ p. free.0 (sym p)),
          insert_free-IsApart id m managers free.1 a.1,
        )
]

-- A manager in its own place.
pub insert_same-IsApart :
    (id : ℕ) (old m : WebSocketManager) (managers : Map WebSocketManager)
    → find id managers ≡ some old
    → m.ws ≡ old.ws
    → IsApart managers
    → IsApart (insert id m managers)
unfolding insert find
insert_same-IsApart id old m [] h e a = cc
insert_same-IsApart id old m ((j, n) ∷ managers) h w a = elim (Bool-cases (j == id)) [
  | inl e ↦
      let here : some n ≡ some old = rw e at h in
      let same : n.ws ≡ m.ws = cc (here, w) in
      rw (insert, e) (subst (λ x. All (λ f. f.1.ws ≢ x) managers) same a.0, a.1)
  | inr e ↦
      let rest : find id managers ≡ some old = rw e at h in
      rw (insert, e)
        (
          All-insert (λ f. f.1.ws ≢ n.ws) id m managers a.0
              (λ p. All-find (λ f. f.1.ws ≢ n.ws) id old managers a.0 rest (sym w ∙ p)),
          insert_same-IsApart id old m managers rest w a.1,
        )
]

pub erase-IsApart :
    (id : ℕ) (managers : Map WebSocketManager) → IsApart managers → IsApart (erase id managers)
unfolding erase
erase-IsApart id [] a = a
erase-IsApart id ((j, n) ∷ managers) a = elim (Bool-cases (j == id)) [
  | inl e ↦ rw (erase, e) (erase-IsApart id managers a.1)
  | inr e ↦
      rw (erase, e) (All-erase (λ f. f.1.ws ≢ n.ws) id managers a.0, erase-IsApart id managers a.1)
]
