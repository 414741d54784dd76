-- ===== src/Servers/Listen/Groups.antt =====
-- The multicast groups that the discovery server joins.
use clip_share_server.Prelude.{
  ℕ, ◌<◌, ◌≡◌, refl, sym, ap, ◌∙◌, Bool, true, false, ◌||◌, Option, none, some, List, [], ◌∷◌, ◌++◌,
  append_assoc, mem, arith, leb, ◌==◌,
}
use clip_share_server.Exec.{Exec, ◌>>◌, require, fail}
use clip_share_server.Config.{Config, Address, addr4, addr6}
use clip_share_server.Servers.Listen.{
  Interface, System, NetOp, joined, did_net, join_multicast_group, max_interfaces, loop6,
  iterate_interfaces,
}

abbrev pub joins : List ℕ → List NetOp
joins [] = []
joins (i ∷ indices) = joined i ∷ joins indices

-- Indices below 32, the last first: none is joined twice, or again after `done`.
abbrev pub Fresh : List ℕ → List ℕ → Type 0
Fresh done [] = Unit {0}
Fresh done (i ∷ indices) =
    (i < max_interfaces) × (mem i (indices ++ done) ≡ false) × Fresh done indices

abbrev pub JoinsOnce : List ℕ → List NetOp → List NetOp → Type 0
JoinsOnce done log log' = (indices : List ℕ) × (log' ≡ joins indices ++ log) × Fresh done indices

joins-append :
    (is : List ℕ) (i : ℕ) (log : List NetOp)
    → joins (is ++ i ∷ []) ++ log ≡ joins is ++ joined i ∷ log
joins-append [] i log = refl
joins-append (k ∷ is) i log = ap (λ t. joined k ∷ t) (joins-append is i log)

Fresh-append :
    (done is : List ℕ) (i : ℕ)
    → i < max_interfaces
    → mem i done ≡ false
    → Fresh (i ∷ done) is
    → Fresh done (is ++ i ∷ [])
Fresh-append done [] i low new h = (low, new, tt)
Fresh-append done (k ∷ is) i low new (h, fresh, hs) =
    (h, ap (mem k) (append_assoc is (i ∷ []) done) ∙ fresh, Fresh-append done is i low new hs)

JoinsOnce-first :
    (done : List ℕ) (i : ℕ) (log log' : List NetOp)
    → (leb max_interfaces i || mem i done) ≡ false
    → JoinsOnce (i ∷ done) (joined i ∷ log) log'
    → JoinsOnce done log log'
JoinsOnce-first done i log log' ok (is, e, fresh) =
    let (low, new) = allowed (mem i done) ok in
    (is ++ i ∷ [], e ∙ sym (joins-append is i log), Fresh-append done is i low new fresh)
  where
    allowed : (b : Bool) → (leb max_interfaces i || b) ≡ false → (i < max_interfaces) × (b ≡ false)
    allowed b h = ground arith

module _ (sys : System) (cfg : Config) where
  loop6-JoinsOnce :
      (addr : ℕ) (done : List ℕ) (entries : List Interface) (log : List NetOp)
      → JoinsOnce done log (loop6 sys cfg addr done entries log).1
  unfolding loop6
  loop6-JoinsOnce addr done [] log = ([], refl, tt)
  loop6-JoinsOnce addr done (entry ∷ entries) log =
      go entry.ifa_addr (loop6-JoinsOnce addr done entries log)
        (loop6-JoinsOnce addr (entry.index ∷ done) entries (joined entry.index ∷ log))
    where
      skip : Exec (List NetOp) (Unit {0})
      skip = loop6 sys cfg addr done entries

      join : Exec (List NetOp) (Unit {0})
      join = join_multicast_group sys entry.index >> loop6 sys cfg addr (entry.index ∷ done) entries

      Later : Type 0
      Later =
          JoinsOnce (entry.index ∷ done) (joined entry.index ∷ log)
            (loop6 sys cfg addr (entry.index ∷ done) entries (joined entry.index ∷ log)).1

      joining :
          (b : Bool)
          → (leb max_interfaces entry.index || mem entry.index done) ≡ false
          → Later
          → JoinsOnce done log
              ((require b
                  >> did_net (joined entry.index)
                  >> loop6 sys cfg addr (entry.index ∷ done) entries)
                log).1
      joining false ok later = ([], refl, tt)
      joining true ok later = JoinsOnce-first done entry.index log _ ok later

      known :
          (b : Bool)
          → (leb max_interfaces entry.index || mem entry.index done) ≡ b
          → JoinsOnce done log (skip log).1
          → Later
          → JoinsOnce done log
              ((elim b as (λ _. Exec (List NetOp) (Unit {0})) [ true ↦ skip | false ↦ join ]) log).1
      known true e next later = next
      known false e next later =
          unfold join_multicast_group in (joining (sys.join entry.index) e later)

      group :
          (o : Option ℕ)
          → JoinsOnce done log (skip log).1
          → Later
          → JoinsOnce done log
              ((elim o as (λ _. Exec (List NetOp) (Unit {0})) [
                | none ↦ fail
                | some g ↦ elim (leb max_interfaces entry.index || mem entry.index done) [
                  | true ↦ skip
                  | false ↦ join
                ]
              ])
                log).1
      group none next later = ([], refl, tt)
      group (some g) next later =
          known (leb max_interfaces entry.index || mem entry.index done) refl next later

      matched :
          (b : Bool)
          → JoinsOnce done log (skip log).1
          → Later
          → JoinsOnce done log
              ((elim b as (λ _. Exec (List NetOp) (Unit {0})) [
                | false ↦ skip
                | true ↦ elim sys.multicast [
                  | none ↦ fail
                  | some g ↦ elim (leb max_interfaces entry.index || mem entry.index done) [
                    | true ↦ skip
                    | false ↦ join
                  ]
                ]
              ])
                log).1
      matched false next later = next
      matched true next later = group sys.multicast next later

      go :
          (o : Option Address)
          → JoinsOnce done log (skip log).1
          → Later
          → JoinsOnce done log
              ((elim o as (λ _. Exec (List NetOp) (Unit {0})) [
                | none ↦ skip
                | some (addr4 a) ↦ skip
                | some (addr6 a) ↦ elim (addr == 0 || a == addr) [
                  | false ↦ skip
                  | true ↦ elim sys.multicast [
                    | none ↦ fail
                    | some g ↦ elim (leb max_interfaces entry.index || mem entry.index done) [
                      | true ↦ skip
                      | false ↦ join
                    ]
                  ]
                ]
              ])
                log).1
      go none next later = next
      go (some (addr4 a)) next later = next
      go (some (addr6 a)) next later = matched (addr == 0 || a == addr) next later

-- Whatever interfaces the system lists, in whatever order and however often, and whether it ends
-- with success or not: the multicast group is joined at most once on each of them, only on
-- interfaces with an index below 32, and an IPv6 address makes the walk through the interfaces do
-- nothing else.
pub iterate_interfaces-JoinsOnce :
    (sys : System) (cfg : Config) (addr type : ℕ) (log : List NetOp)
    → JoinsOnce [] log (iterate_interfaces sys cfg (addr6 addr) type log).1
unfolding iterate_interfaces
iterate_interfaces-JoinsOnce sys cfg addr type log = go sys.interfaces
  where
    go :
        (o : Option (List Interface))
        → JoinsOnce [] log
            ((elim o as (λ _. Exec (List NetOp) (Unit {0})) [
              | none ↦ fail
              | some entries ↦ loop6 sys cfg addr [] entries
            ])
              log).1
    go none = ([], refl, tt)
    go (some entries) = loop6-JoinsOnce sys cfg addr [] entries log
