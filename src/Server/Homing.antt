-- ===== src/Server/Homing.antt =====
-- The managers of the web sockets when one opens and when one closes.
use woeful.Base.{
  ℕ, ◌+◌, ◌^◌, ◌<◌, ◌≡◌, ◌≢◌, refl, sym, ap, ◌∙◌, subst, inl, inr, ◌==◌, ==_iff, ==_self, Bool,
  true, false, Bool-cases, some, if◌then◌else◌, arith, ok, >>=-eq-ok, ok-injective, or_fault,
  dangling,
}
use mathlib.Core.Option.{some-injective}
use woeful.Base.Map.{Map, find, erase, find-insert, find-erase}
use woeful.Manager.{WebSocketManager, construct}
use woeful.Watcher.Homes.{Houses}
use woeful.Watcher.Held.{find-IsOwned}
use woeful.Server.{Server, manager_of, put_manager, remove_manager, on_open, on_close}
use woeful.Server.Sound.{IsSound}
use woeful.Server.Alive.{IsHome}

pub differs : (i j : ℕ) → i ≢ j → (i == j) ≡ false
differs i j h = ground arith

pub on_open-IsHome :
    (n at : ℕ) (is_live : ℕ → Bool) (s : Server)
    → n < 2 ^ 64
    → IsHome n is_live s
    → IsHome (n + 1) (λ ws. if at == ws then true else is_live ws) (on_open at s)
unfolding on_open put_manager construct
on_open-IsHome n at is_live s small v =
    let managers = s.watcher.watched_sockets in
    let at_n : s.next_id ≡ n = omega (arith, v.next) in
    let m0 = (construct at s.next_id s.trace).0 in
    record {
      next = omega (arith, v.next);
      unused = λ id l.
          find-insert s.next_id id m0 managers
          ∙ rw (differs s.next_id id (omega (arith, at_n))) (v.unused id (omega arith));
      users = λ ws id f. elim (Bool-cases (at == ws)) [
        | inl e ↦
            let same : s.next_id ≡ id =
              some-injective _ _ (rw e at (sym (find-insert at ws s.next_id s.user_data) ∙ f)) in
            (
              omega (arith, at_n),
              λ m g.
                  let own : m0 ≡ m = some-injective _ _ (
                    rw ((==_iff s.next_id id).1 same) at
                      (sym (find-insert s.next_id id m0 managers) ∙ g)) in
                  sym (ap (λ (x : WebSocketManager). x.ws) own) ∙ (==_iff at ws).0 e,
            )
        | inr e ↦
            let (l, own) =
              v.users ws id (rw e at (sym (find-insert at ws s.next_id s.user_data) ∙ f)) in
            (
              omega (arith, l),
              λ m g. own m (
                  rw (differs s.next_id id (omega (arith, l, at_n))) at
                    (sym (find-insert s.next_id id m0 managers) ∙ g)),
            )
      ];
      lodges = λ ws live. elim (Bool-cases (at == ws)) [
        | inl e ↦ (
          s.next_id,
          find-insert at ws s.next_id s.user_data ∙ rw e refl,
          (
            m0,
            find-insert s.next_id s.next_id m0 managers ∙ rw (==_self s.next_id) refl,
            (==_iff at ws).0 e,
          ),
        )
        | inr e ↦
            let (id, f, (m, g, own)) = v.lodges ws (rw e at live) in
            let (l, _) = v.users ws id f in
            (
              id,
              find-insert at ws s.next_id s.user_data ∙ rw e f,
              (
                m,
                find-insert s.next_id id m0 managers
                    ∙ rw (differs s.next_id id (omega (arith, l, at_n))) g,
                own,
              ),
            )
      ];
    }

-- The manager of a web socket, by what the web socket keeps.
pub manager_of-named :
    (s : Server) (ws : ℕ) (m : WebSocketManager)
    → manager_of s ws ≡ ok m
    → (id : ℕ) × (find ws s.user_data ≡ some id) × (find id s.watcher.watched_sockets ≡ some m)
unfolding manager_of
manager_of-named s ws m h =
    let (id, f, e) = >>=-eq-ok (or_fault (find ws s.user_data) dangling) _ h in
    (id, ground arith, ground arith)

-- The managers of the other web sockets stay when one goes.
erase-Houses :
    (id j at ws : ℕ) (m : WebSocketManager) (managers : Map WebSocketManager)
    → find id managers ≡ some m
    → m.ws ≡ at
    → (at == ws) ≡ false
    → Houses j ws managers
    → Houses j ws (erase id managers)
erase-Houses id j at ws m managers f own other (n, g, e) = (
  n,
  elim (Bool-cases (id == j)) [
    | inl same ↦
        let one : m ≡ n =
          some-injective _ _ (sym f ∙ ap (λ x. find x managers) ((==_iff id j).0 same) ∙ g) in
        let p : at ≡ ws = sym own ∙ ap (λ (x : WebSocketManager). x.ws) one ∙ e in
        cc ((==_iff at ws).1 p, other)
    | inr apart ↦ find-erase id j managers ∙ rw apart g
  ],
  e,
)

pub on_close-IsHome :
    (n at : ℕ) (is_live : ℕ → Bool) (s s' : Server)
    → IsSound s
    → on_close at s ≡ ok s'
    → IsHome n is_live s
    → IsHome n (λ ws. if at == ws then false else is_live ws) s'
unfolding on_close remove_manager
on_close-IsHome n at is_live s s' sound h v =
    let (m, e, h1) = >>=-eq-ok (manager_of s at) _ h in
    let (id, f, g) = manager_of-named s at m e in
    let managers = s.watcher.watched_sockets in
    let own : m.ws ≡ at = (v.users at id f).1 m g in
    let (_, named) = find-IsOwned id m managers s.trace sound.streams g in
    let found : find m.socket_id managers ≡ some m = rw named g in
    subst (IsHome n (λ ws. if at == ws then false else is_live ws)) (ok-injective h1) (record {
      next = v.next;
      unused = λ j l. find-erase m.socket_id j managers ∙ ground (arith, v.unused j l);
      users = λ ws j q. (
        (v.users ws j q).0,
        λ m' g'. (v.users ws j q).1 m' (ground (arith, find-erase m.socket_id j managers)),
      );
      lodges = λ ws live. elim (Bool-cases (at == ws)) [
        | inl same ↦ cc (rw same at live)
        | inr other ↦
            let (j, q, house) = v.lodges ws (rw other at live) in
            (j, q, erase-Houses m.socket_id j at ws m managers found own other house)
      ];
    })
