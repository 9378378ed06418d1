-- ===== src/Incremental/Matching.antt =====
-- What the planner's maps and sets hold: the owners of a path, the partitions invalidated directly and the
-- paths that no partition owns.
use reverb_impact.Base.{
  String, Bool, true, false, ◌&&◌, ◌||◌, some, List, [], ◌∷◌, any, includes, ◌==◌, ◌≡◌, refl, sym,
  ◌∙◌, ap, inl, inr, ◌⊎◌, arith, eq_iff, Bool-cases, if◌then◌else◌, Dict, lookup, insert,
  lookup-insert, includes-append,
}
use reverb_impact.Incremental.Data.{AdapterPartitionDescriptor}
use reverb_impact.Incremental.Planning.{
  set_add, or_empty, owned_by, add_paths, add_partitions, add_all, Matched, match_path, match_paths,
}

or_false : (b : Bool) → (b || false) ≡ b
or_false b = ground arith

includes-set_add :
    (x : String) (xs : List String) (s : String)
    → includes (set_add x xs) s ≡ (includes xs s || x == s)
includes-set_add x xs s = let split = includes-append xs (x ∷ []) s in ground (arith, eq_iff x s)

owned_by-insert :
    (path : String) (keys : List String) (owners : Dict (List String)) (x : String)
    → owned_by (insert path keys owners) x ≡ (if path == x then keys else owned_by owners x)
owned_by-insert path keys owners x =
    ap or_empty (lookup-insert path x keys owners) ∙ share (path == x)
  where
    share :
        (b : Bool)
        → or_empty (if b then some keys else lookup x owners)
          ≡ (if b then keys else or_empty (lookup x owners))
    share true = refl
    share false = refl

includes-owned_by-insert :
    (path key : String) (owners : Dict (List String)) (x s : String)
    → includes (owned_by (insert path (set_add key (owned_by owners path)) owners) x) s
      ≡ (includes (owned_by owners x) s || (path == x && key == s))
includes-owned_by-insert path key owners x s =
    ap (λ ks. includes ks s) (owned_by-insert path (set_add key (owned_by owners path)) owners x)
    ∙ put (Bool-cases (path == x))
  where
    put :
        ((path == x) ≡ true) ⊎ ((path == x) ≡ false)
        → includes (if path == x then set_add key (owned_by owners path) else owned_by owners x) s
          ≡ (includes (owned_by owners x) s || (path == x && key == s))
    put (inl same) =
        let is : path ≡ x = (eq_iff path x).0 same in
        rw same (
          includes-set_add key (owned_by owners path) s
          ∙ ap (λ z. includes (owned_by owners z) s || key == s) is)
    put (inr other) = rw other (sym (or_false (includes (owned_by owners x) s)))

owned_by-add_paths :
    (key : String) (paths : List String) (owners : Dict (List String)) (x s : String)
    → includes (owned_by (add_paths key paths owners) x) s
      ≡ (includes (owned_by owners x) s || (includes paths x && key == s))
unfolding add_paths
owned_by-add_paths key [] owners x s = sym (or_false (includes (owned_by owners x) s))
owned_by-add_paths key (path ∷ paths) owners x s =
    owned_by-add_paths key paths (insert path (set_add key (owned_by owners path)) owners) x s
    ∙ (ap (λ b. b || (includes paths x && key == s)) (includes-owned_by-insert path key owners x s)
        ∙ regroup (includes (owned_by owners x) s) (path == x) (includes paths x) (key == s))
  where
    regroup : (a b c d : Bool) → ((a || (b && d)) || (c && d)) ≡ (a || ((b || c) && d))
    regroup a b c d = ground arith

-- The owners of a path are the partitions that list it.
pub owned_by-add_partitions :
    (qs : List AdapterPartitionDescriptor) (owners : Dict (List String)) (x s : String)
    → includes (owned_by (add_partitions qs owners) x) s ≡ (
        includes (owned_by owners x) s
        || any (λ q. includes q.owned_paths x && q.partition_key == s) qs)
unfolding add_partitions
owned_by-add_partitions [] owners x s = ground arith
owned_by-add_partitions (q ∷ qs) owners x s =
    let rest = owned_by-add_partitions qs (add_paths q.partition_key q.owned_paths owners) x s in
    let here = owned_by-add_paths q.partition_key q.owned_paths owners x s in ground arith

includes-add_all :
    (ks values : List String) (s : String)
    → includes (add_all ks values) s ≡ (includes values s || includes ks s)
includes-add_all [] values s = ground arith
includes-add_all (k ∷ ks) values s =
    let rest = includes-add_all ks (set_add k values) s in
    let here = includes-set_add k values s in ground arith

abbrev pub is_empty : List String → Bool
is_empty [] = true
is_empty (x ∷ xs) = false

-- The partitions invalidated directly are the owners of the changed paths.
pub match_paths-direct :
    (owners : Dict (List String)) (paths : List String) (m : Matched) (s : String)
    → includes (match_paths owners paths m).direct s
      ≡ (includes m.direct s || any (λ x. includes (owned_by owners x) s) paths)
unfolding match_paths
match_paths-direct owners [] m s = ground arith
match_paths-direct owners (path ∷ paths) m s =
    match_paths-direct owners paths (match_path path (owned_by owners path) m) s
    ∙ (ap (λ b. b || any (λ x. includes (owned_by owners x) s) paths) (turn (owned_by owners path))
        ∙ regroup (includes m.direct s) (includes (owned_by owners path) s)
            (any (λ x. includes (owned_by owners x) s) paths))
  where
    turn :
        (keys : List String)
        → includes (match_path path keys m).direct s ≡ (includes m.direct s || includes keys s)
    turn [] = sym (or_false (includes m.direct s))
    turn (k ∷ ks) = includes-add_all (k ∷ ks) m.direct s

    regroup : (a b c : Bool) → ((a || b) || c) ≡ (a || (b || c))
    regroup a b c = ground arith

-- The unmatched paths are the changed paths with no owner.
pub match_paths-unmatched :
    (owners : Dict (List String)) (paths : List String) (m : Matched) (x : String)
    → includes (match_paths owners paths m).unmatched x
      ≡ (includes m.unmatched x || (includes paths x && is_empty (owned_by owners x)))
unfolding match_paths
match_paths-unmatched owners [] m x = sym (or_false (includes m.unmatched x))
match_paths-unmatched owners (path ∷ paths) m x =
    match_paths-unmatched owners paths (match_path path (owned_by owners path) m) x
    ∙ (ap (λ b. b || (includes paths x && is_empty (owned_by owners x)))
          (turn (owned_by owners path))
        ∙ regroup (Bool-cases (path == x)))
  where
    turn :
        (keys : List String)
        → includes (match_path path keys m).unmatched x
          ≡ (includes m.unmatched x || (path == x && is_empty keys))
    turn [] =
        includes-set_add path m.unmatched x
        ∙ ap (λ b. includes m.unmatched x || b) (and_true (path == x))
      where
        and_true : (b : Bool) → b ≡ (b && true)
        and_true b = ground arith
    turn (k ∷ ks) = ground arith

    regroup :
        ((path == x) ≡ true) ⊎ ((path == x) ≡ false)
        → ((includes m.unmatched x || (path == x && is_empty (owned_by owners path)))
            || (includes paths x && is_empty (owned_by owners x)))
          ≡ (includes m.unmatched x
              || ((path == x || includes paths x) && is_empty (owned_by owners x)))
    regroup (inl same) =
        let is : path ≡ x = (eq_iff path x).0 same in
        let own = ap (λ z. is_empty (owned_by owners z)) is in ground arith
    regroup (inr other) = ground arith
