-- ===== src/Topology/Edges.antt =====
-- What the collection of the dependencies gives: the keys, the edges and the roots.
use graph_skill_runtime.Common.{
  String, Bool, true, false, not, ◌&&◌, ◌||◌, some, List, [], ◌∷◌, ◌++◌, ◌≡◌, refl, ◌∙◌, ap, arith,
  ◌==◌, eq_iff, if◌then◌else◌, is_some,
}
use graph_skill_runtime.Common.Dict.{Dict, get, put, get-put}
use graph_skill_runtime.Common.Names.{has, has-append, add, add_all, entries}
use graph_skill_runtime.Topology.{
  PhaseTopologyRef, Dependencies, flag, demand, link, link_all, collect, from_keys, keys,
  collect_graph_dependencies,
}

-- The phase y declares that it depends on x.
unfoldable pub depends : List PhaseTopologyRef → String → String → Bool
unfolding has
depends [] y x = false
depends (ref ∷ refs) y x = (ref.name == y && has x ref.depends_on) || depends refs y x

-- The dependency x of the phase y is an edge of the graph.
unfoldable pub is_edge : List String → String → String → Bool
unfolding has
is_edge phases x y = not (x == "input") && has x phases && not (x == y)

module _ (phases : List String) where
  edges-link :
      (ref : PhaseTopologyRef) (dep : String) (s : Dependencies) (x y : String)
      → has y (entries (link phases ref dep s).adjacency x)
        ≡ (has y (entries s.adjacency x) || (ref.name == y && dep == x && is_edge phases x y))
  unfolding link flag is_edge has
  edges-link ref dep s x y =
      let old = entries s.adjacency dep in
      ground (
        arith,
        get-put s.adjacency dep x (old ++ ref.name ∷ []),
        eq_iff dep x,
        eq_iff ref.name y,
        has-append y old (ref.name ∷ []),
        eq_iff dep "input",
        eq_iff x "input",
        eq_iff dep ref.name,
        eq_iff x y,
      )

  edges-link_all :
      (ref : PhaseTopologyRef) (deps : List String) (s : Dependencies) (x y : String)
      → has y (entries (link_all phases ref deps s).adjacency x)
        ≡ (has y (entries s.adjacency x) || (ref.name == y && has x deps && is_edge phases x y))
  unfolding link_all has
  edges-link_all ref [] s x y = ground arith
  edges-link_all ref (dep ∷ deps) s x y =
      ground (arith, edges-link_all ref deps (link phases ref dep s) x y, edges-link ref dep s x y)

  edges-collect :
      (refs : List PhaseTopologyRef) (s : Dependencies) (x y : String)
      → has y (entries (collect phases refs s).adjacency x)
        ≡ (has y (entries s.adjacency x) || (depends refs y x && is_edge phases x y))
  unfolding collect has depends demand flag
  edges-collect [] s x y = ground arith
  edges-collect (ref ∷ refs) s x y =
      let t = demand ref s in
      ground (
        arith,
        edges-collect refs (link_all phases ref ref.depends_on t) x y,
        edges-link_all ref ref.depends_on t x y,
      )

  roots-link_all :
      (ref : PhaseTopologyRef) (deps : List String) (s : Dependencies) (y : String)
      → has y (link_all phases ref deps s).input_roots
        ≡ (has y s.input_roots || (ref.name == y && has "input" deps))
  unfolding link_all link flag has
  roots-link_all ref [] s y = ground arith
  roots-link_all ref (dep ∷ deps) s y = ground (
    arith,
    roots-link_all ref deps (link phases ref dep s) y,
    eq_iff dep "input",
    has-append y s.input_roots (ref.name ∷ []),
  )

  roots-collect :
      (refs : List PhaseTopologyRef) (s : Dependencies) (y : String)
      → has y (collect phases refs s).input_roots ≡ (has y s.input_roots || depends refs y "input")
  unfolding collect has depends demand flag
  roots-collect [] s y = ground arith
  roots-collect (ref ∷ refs) s y =
      let t = demand ref s in
      ground (
        arith,
        roots-collect refs (link_all phases ref ref.depends_on t) y,
        roots-link_all ref ref.depends_on t y,
      )

pub keys-put {ℓ} :
    {A : Type ℓ} (d : Dict A) (k : String) (v : A) → keys (put d k v) ≡ add k (keys d)
unfolding keys put has
keys-put [] k v = refl
keys-put ((j, w) ∷ d) k v = ground (arith, keys-put d k v)

pub keys-from_keys {ℓ} :
    {A : Type ℓ} (a : A) (ks : List String) (d : Dict A)
    → keys (from_keys a ks d) ≡ add_all ks (keys d)
unfolding from_keys add_all
keys-from_keys a [] d = refl
keys-from_keys a (k ∷ ks) d = keys-from_keys a ks (put d k a) ∙ ap (add_all ks) (keys-put d k a)

module _ (phases : List String) where
  keys-link_all :
      (ref : PhaseTopologyRef) (deps : List String) (s : Dependencies)
      → ((x : String) → has x phases ≡ true → has x (keys s.adjacency) ≡ true)
      → keys (link_all phases ref deps s).adjacency ≡ keys s.adjacency
  unfolding link_all link flag
  keys-link_all ref [] s h = refl
  keys-link_all ref (dep ∷ deps) s h =
      let old = entries s.adjacency dep in
      let now : keys (link phases ref dep s).adjacency ≡ keys s.adjacency =
        ground (arith, keys-put s.adjacency dep (old ++ ref.name ∷ []), h dep) in
      let later = keys-link_all ref deps (link phases ref dep s) (λ x m. ap (has x) now ∙ h x m) in
      later ∙ now

  keys-collect :
      (refs : List PhaseTopologyRef) (s : Dependencies)
      → ((x : String) → has x phases ≡ true → has x (keys s.adjacency) ≡ true)
      → keys (collect phases refs s).adjacency ≡ keys s.adjacency
  unfolding collect demand flag
  keys-collect [] s h = refl
  keys-collect (ref ∷ refs) s h =
      let t = demand ref s in
      let same : keys t.adjacency ≡ keys s.adjacency = ground arith in
      let now = keys-link_all ref ref.depends_on t (λ x m. ap (has x) same ∙ h x m) ∙ same in
      keys-collect refs (link_all phases ref ref.depends_on t) (λ x m. ap (has x) now ∙ h x m) ∙ now

-- What the collected dependencies are: keys, edges and roots.
pub record IsCollected (phases : List String) (refs : List PhaseTopologyRef) (s : Dependencies)
    : Type 0 where
  pub names : keys s.adjacency ≡ add_all phases []
  pub edges :
      (x y : String) → has y (entries s.adjacency x) ≡ (depends refs y x && is_edge phases x y)
  pub roots : (y : String) → has y s.input_roots ≡ depends refs y "input"

pub has-keys {ℓ} : {A : Type ℓ} (d : Dict A) (x : String) → has x (keys d) ≡ is_some (get d x)
unfolding has keys get
has-keys [] x = refl
has-keys ((k, v) ∷ d) x = ground (arith, has-keys d x)

pub get-from_keys {ℓ} :
    {A : Type ℓ} (a : A) (ks : List String) (d : Dict A) (x : String)
    → get (from_keys a ks d) x ≡ (if has x ks then some a else get d x)
unfolding from_keys has
get-from_keys a [] d x = refl
get-from_keys a (k ∷ ks) d x = ground (arith, get-from_keys a ks (put d k a) x, get-put d k x a)

pub collected :
    (phases : List String) (refs : List PhaseTopologyRef)
    → IsCollected phases refs (collect_graph_dependencies phases refs)
unfolding collect_graph_dependencies has get keys
collected phases refs =
    let blank : Dict (List String) = from_keys [] phases [] in
    let s : Dependencies = record {
      adjacency = blank;
      input_roots = [];
      flagged = [];
      diags = [];
    } in
    let names = keys-from_keys {A = List String} [] phases [] in
    let known : (x : String) → has x phases ≡ true → has x (keys blank) ≡ true =
      λ x h. ground (arith, has-keys blank x, get-from_keys {A = List String} [] phases [] x) in
    record {
      names = keys-collect phases refs s known ∙ names;
      edges = λ x y.
          ground (
            arith,
            edges-collect phases refs s x y,
            get-from_keys {A = List String} [] phases [] x,
          );
      roots = λ y. roots-collect phases refs s y;
    }
