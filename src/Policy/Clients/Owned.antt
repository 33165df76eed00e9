-- ===== src/Policy/Clients/Owned.antt =====
-- The names and pointers of the clients in step 1 of Apply (internal/policy/manager.go).
use hypergate_engine.Prelude.{
  ℕ, ◌≤◌, ◌<◌, Bool, [], ◌∷◌, Option, none, some, ◌==◌, eq_iff, nat_eq, list_eq, ◌≡◌, ◌⊎◌, inl, inr,
  refl, arith, subst, All, if_cases, if_ind, Option-cases, ℤ,
}
use hypergate_engine.Prelude.Text.{Str}
use hypergate_engine.Prelude.Maps.{Map, lookup, insert, delete, lookup-insert}
use hypergate_engine.Config.Redis.{RedisServiceConfig}
use hypergate_engine.Policy.Clients.{
  Dialer, Entry, ClientBuild, connect, obtain_client, reusable, kept_client, new_client,
  kept_or_dialled, dial_timeout,
}

-- Every entry is found under its name, its pointer was handed out, and it has one name.
pub record IsOwned (entries : Map Str Entry) (next : ℕ) : Type 0 where
  pub listed : All (λ ne. lookup ne.0 entries ≡ some ne.1) entries
  pub bounded : (n : Str) (e : Entry) → lookup n entries ≡ some e → e.id < next
  pub distinct :
      (n k : Str) (e f : Entry)
      → lookup n entries ≡ some e
      → lookup k entries ≡ some f
      → e.id ≡ f.id
      → n ≡ k

-- The entries of the next policy: the old ones under their names, and new pointers.
pub record IsBuilt (old : Map Str Entry) (start : ℕ) (b : ClientBuild) : Type 0 where
  pub grows : start ≤ b.next
  pub owned : IsOwned b.redis b.next
  pub origin :
      (n : Str) (e : Entry) → lookup n b.redis ≡ some e → (lookup n old ≡ some e) ⊎ (start ≤ e.id)

listed-insert :
    (k : Str) (v : Entry) (m l : Map Str Entry)
    → All (λ ne. lookup ne.0 m ≡ some ne.1) l
    → All (λ ne. lookup ne.0 (insert k v m) ≡ some ne.1) (delete k l)
unfolding delete
listed-insert k v m [] a = tt
listed-insert k v m ((j, w) ∷ l) (here, a) =
    if_cases (All (λ ne. lookup ne.0 (insert k v m) ≡ some ne.1)) (j == k)
      (λ h. listed-insert k v m l a)
      (λ h.
        (ground (arith, lookup-insert k j v m, eq_iff j k, eq_iff k j), listed-insert k v m l a))

insert-listed :
    (k : Str) (v : Entry) (m : Map Str Entry)
    → All (λ ne. lookup ne.0 m ≡ some ne.1) m
    → All (λ ne. lookup ne.0 (insert k v m) ≡ some ne.1) (insert k v m)
unfolding insert
insert-listed k v m a = (ground (arith, lookup-insert k k v m, eq_iff k k), listed-insert k v m m a)

module _ (old : Map Str Entry) (start : ℕ) (o : IsOwned old start) where
  kept_client-IsBuilt :
      (name : Str) (e : Entry) (b : ClientBuild)
      → lookup name old ≡ some e
      → IsBuilt old start b
      → IsBuilt old start (kept_client name e b)
  kept_client-IsBuilt name e b h i = record {
    grows = i.grows;
    owned = record {
      listed = insert-listed name e b.redis i.owned.listed;
      bounded = λ n f q. ground (
        arith,
        lookup-insert name n e b.redis,
        eq_iff name n,
        i.owned.bounded n f,
        o.bounded name e h,
        i.grows,
      );
      distinct = λ n k f g q r s. ground (
        arith,
        lookup-insert name n e b.redis,
        lookup-insert name k e b.redis,
        eq_iff name n,
        eq_iff name k,
        i.owned.distinct n k f g,
        i.origin n f,
        i.origin k g,
        o.distinct n name f e,
        o.distinct name k e g,
        o.bounded name e h,
      );
    };
    origin = λ n f q. ground (arith, lookup-insert name n e b.redis, eq_iff name n, i.origin n f);
  }

  new_client-IsBuilt :
      (name : Str) (cfg : RedisServiceConfig) (b : ClientBuild)
      → IsBuilt old start b
      → IsBuilt old start (new_client name cfg b)
  new_client-IsBuilt name cfg b i =
      let e : Entry = record { id = b.next; cfg = cfg } in
      record {
        grows = omega (arith, i.grows);
        owned = record {
          listed = insert-listed name e b.redis i.owned.listed;
          bounded = λ n f q.
              ground (arith, lookup-insert name n e b.redis, eq_iff name n, i.owned.bounded n f);
          distinct = λ n k f g q r s. ground (
            arith,
            lookup-insert name n e b.redis,
            lookup-insert name k e b.redis,
            eq_iff name n,
            eq_iff name k,
            i.owned.distinct n k f g,
            i.owned.bounded n f,
            i.owned.bounded k g,
          );
        };
        origin = λ n f q.
            ground (arith, lookup-insert name n e b.redis, eq_iff name n, i.origin n f, i.grows);
      }

  module _ (d : Dialer) (ready : Bool) (reload_dial_timeout : ℤ) where
    abbrev Keeps : Option ClientBuild → Type 0
    Keeps none = Unit
    Keeps (some b) = IsBuilt old start b

    kept_or_dialled-Keeps :
        (o : Option Entry) (name : Str) (cfg : RedisServiceConfig) (b : ClientBuild)
        → ((e : Entry) → o ≡ some e → lookup name old ≡ some e)
        → IsBuilt old start b
        → Keeps (kept_or_dialled d ready reload_dial_timeout old o name cfg b)
    kept_or_dialled-Keeps (some e) name cfg b found i =
        kept_client-IsBuilt name e b (found e refl) i
    kept_or_dialled-Keeps none name cfg b found i =
        if_ind Keeps (d.new_redis (dial_timeout ready reload_dial_timeout cfg) name cfg)
          (new_client-IsBuilt name cfg b i) tt

    reusable-eq-some :
        (cfg : RedisServiceConfig) (o : Option Entry) (e : Entry)
        → reusable d cfg o ≡ some e
        → o ≡ some e
    reusable-eq-some cfg o e h = ground arith

    obtain_client-Keeps :
        (name : Str) (cfg : RedisServiceConfig) (b : ClientBuild)
        → IsBuilt old start b
        → Keeps (obtain_client d ready reload_dial_timeout old name cfg b)
    unfolding obtain_client
    obtain_client-Keeps name cfg b i =
        kept_or_dialled-Keeps (reusable d cfg (lookup name old)) name cfg b
          (reusable-eq-some cfg (lookup name old)) i

    pub connect-IsBuilt :
        (todo : Map Str RedisServiceConfig) (b : ClientBuild)
        → IsBuilt old start b
        → IsBuilt old start (connect d ready reload_dial_timeout old todo b).0
    unfolding connect
    connect-IsBuilt [] b i = i
    connect-IsBuilt ((name, cfg) ∷ rest) b i =
        let kept = obtain_client-Keeps name cfg b i in
        elim (Option-cases (obtain_client d ready reload_dial_timeout old name cfg b)) [
          | inl e ↦ rw (e, connect) i
          | inr (b', e) ↦ rw (e, connect) (connect-IsBuilt rest b' (subst Keeps e kept))
        ]

pub nothing-IsBuilt :
    (old : Map Str Entry) (start : ℕ)
    → IsBuilt old start (record { redis = []; next = start; created = [] })
unfolding lookup
nothing-IsBuilt old start = record {
  grows = omega arith;
  owned = record { listed = tt; bounded = λ n e h. cc; distinct = λ n k e f h. cc };
  origin = λ n e h. cc;
}
