-- ===== src/Store/Named.antt =====
-- internal/store: stores in which no two live objects have the same name.
use databricks_emulator.Base.{◌≡◌, Bool, true, some, String, arith}
use databricks_emulator.Base.Eq.{string_comparable}
use databricks_emulator.Dict
use databricks_emulator.Dict.{Dict}

module _ {V : Type 0} (id : V → String) (name : V → String) (live : V → Bool) where
  -- Each object stands under its own id, and the names of the live ones are different.
  pub record IsNamed (d : Dict String V) : Type 0 where
    pub keyed : (k : String) (v : V) → Dict.get d k ≡ some v → id v ≡ k
    pub unique :
        (k j : String) (v w : V)
        → Dict.get d k ≡ some v
        → Dict.get d j ≡ some w
        → live v ≡ true
        → live w ≡ true
        → name v ≡ name w
        → k ≡ j

  pub empty-IsNamed : IsNamed Dict.empty
  empty-IsNamed = record {
    keyed = λ k v at. let e = Dict.get-empty {V = V} k in absurd (cc e);
    unique = λ k j v w at _ _ _ _. let e = Dict.get-empty {V = V} k in absurd (cc e);
  }

  -- The object that is put has a name that no live object of another id has, if it is live.
  pub put-IsNamed :
      (d : Dict String V) (v : V)
      → IsNamed d
      → ((k : String) (w : V)
          → Dict.get d k ≡ some w
          → live v ≡ true
          → live w ≡ true
          → name w ≡ name v
          → k ≡ id v)
      → IsNamed (Dict.put d (id v) v)
  put-IsNamed d v n free = record {
    keyed = λ k w at.
        ground
          (arith, n.keyed k w, Dict.get-put d (id v) v k, string_comparable.equal_iff (id v) k);
    unique = λ k j w u at_k at_j live_k live_j same. ground (
      arith,
      n.unique k j w u,
      free k w,
      free j u,
      Dict.get-put d (id v) v k,
      Dict.get-put d (id v) v j,
      string_comparable.equal_iff (id v) k,
      string_comparable.equal_iff (id v) j,
    );
  }

  pub remove-IsNamed : (d : Dict String V) (i : String) → IsNamed d → IsNamed (Dict.remove d i)
  remove-IsNamed d i n = record {
    keyed = λ k w at. n.keyed k w (ground (arith, Dict.get-remove d i k));
    unique = λ k j w u at_k at_j.
        n.unique k j w u (ground (arith, Dict.get-remove d i k))
          (ground (arith, Dict.get-remove d i j));
  }
