-- ===== src/Server/Alive.antt =====
-- The web sockets that are open, over a history of the program.
use woeful.Base.{
  ℕ, ◌+◌, ◌%◌, ◌^◌, ◌≤◌, ◌<◌, ◌≡◌, sym, ap, ◌∙◌, subst, inl, inr, ◌==◌, Bool, true, false,
  Option-cases, none, some, if◌then◌else◌,
}
use mathlib.Core.Option.{some-injective}
use woeful.Base.Map.{Map, find}
use woeful.Config.{WoefulConfig}
use woeful.System.Calls.{Os}
use woeful.System.{EpollWrapper}
use woeful.Manager.{WebSocketManager}
use woeful.Watcher.Homes.{Houses, Rehouses}
use woeful.Server.{Server}
use woeful.Server.Steps.{
  Step, opens, receives, drains, closes, wakes, delivers, writes, interrupts, posts, Reach, start,
  later,
}
use woeful.Server.Moves.{Stays}

module _ {os : Os} {conf : WoefulConfig} where
  -- Whether a web socket is open after a step.
  unfoldable pub open_after : {s s' : Server} → ℕ → Step os conf s s' → Bool → Bool
  open_after ws (opens at free) before = if at == ws then true else before
  open_after ws (closes at h) before = if at == ws then false else before
  open_after ws (receives at message bytes fits h) before = before
  open_after ws (drains at h) before = before
  open_after ws (wakes answer h) before = before
  open_after ws delivers before = before
  open_after ws (writes fuel i h) before = before
  open_after ws interrupts before = before
  open_after ws posts before = before

  -- It opened, and did not close since.
  unfoldable pub is_open_socket :
      {epoll : EpollWrapper} {s : Server} → ℕ → Reach os conf epoll s → Bool
  unfolding open_after
  is_open_socket ws start = false
  is_open_socket ws (later r step) = open_after ws step (is_open_socket ws r)

  unfoldable pub openings_after : {s s' : Server} → Step os conf s s' → ℕ → ℕ
  openings_after (opens at free) n = n + 1
  openings_after (closes at h) n = n
  openings_after (receives at message bytes fits h) n = n
  openings_after (drains at h) n = n
  openings_after (wakes answer h) n = n
  openings_after delivers n = n
  openings_after (writes fuel i h) n = n
  openings_after interrupts n = n
  openings_after posts n = n

  -- How many web sockets opened.
  unfoldable pub openings : {epoll : EpollWrapper} {s : Server} → Reach os conf epoll s → ℕ
  unfolding openings_after
  openings start = 0
  openings (later r step) = openings_after step (openings r)

-- The id that a web socket keeps leads to its manager.
abbrev pub Lodges : ℕ → Server → Type 0
Lodges ws s = (id : ℕ) × (find ws s.user_data ≡ some id) × Houses id ws s.watcher.watched_sockets

-- After `n` openings: the ids from `n` on are free, what a web socket keeps leads to a manager of
-- its own or to none, and the open web sockets have their managers.
pub record IsHome (n : ℕ) (is_live : ℕ → Bool) (s : Server) : Type 0 where
  pub next : s.next_id ≡ n % 2 ^ 64
  pub unused : (id : ℕ) → n ≤ id → find id s.watcher.watched_sockets ≡ none
  pub users :
      (ws id : ℕ)
      → find ws s.user_data ≡ some id
      → (id < n) × ((m : WebSocketManager) → find id s.watcher.watched_sockets ≡ some m → m.ws ≡ ws)
  pub lodges : (ws : ℕ) → is_live ws ≡ true → Lodges ws s

Rehouses-own :
    (id ws : ℕ) (managers managers' : Map WebSocketManager)
    → Rehouses managers managers'
    → ((m : WebSocketManager) → find id managers ≡ some m → m.ws ≡ ws)
    → (m : WebSocketManager) → find id managers' ≡ some m
    → m.ws ≡ ws
Rehouses-own id ws managers managers' q own m f = elim (Option-cases (find id managers)) [
  | inl e ↦ cc ((q id).1 e, f)
  | inr (m0, e) ↦
      let (m', f', e') = (q id).0 ws (m0, e, own m0 e) in
      ap (λ (x : WebSocketManager). x.ws) (some-injective _ _ (sym f ∙ f')) ∙ e'
]

pub Stays-IsHome :
    (n : ℕ) (is_live : ℕ → Bool) (s s' : Server)
    → Stays s s'
    → IsHome n is_live s
    → IsHome n is_live s'
Stays-IsHome n is_live s s' q v = record {
  next = q.next ∙ v.next;
  unused = λ id l. (q.homes id).1 (v.unused id l);
  users = λ ws id f.
      let (l, own) = v.users ws id (subst (λ x. find ws x ≡ some id) q.users f) in
      (l, Rehouses-own id ws s.watcher.watched_sockets s'.watcher.watched_sockets q.homes own);
  lodges = λ ws e.
      let (id, f, h) = v.lodges ws e in
      (id, subst (λ x. find ws x ≡ some id) (sym q.users) f, (q.homes id).0 ws h);
}
