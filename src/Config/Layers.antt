-- ===== src/Config/Layers.antt =====
-- Which layer each field of a runtime profile comes from, and that its recorded origin names that layer.
use graph_skill_runtime.Common.{
  String, Bool, true, false, List, [], ◌∷◌, Option, none, some, ◌≡◌, refl, arith, ◌==◌,
  if◌then◌else◌, or_else, is_some, ◌&&◌, ◌∙◌, ap,
}
use graph_skill_runtime.Common.Dict.{Dict, get, put, get-put}
use graph_skill_runtime.Domain.Profile.{ConfigSource, default, ValueOrigin, RuntimeProfileOverlay}
use graph_skill_runtime.Config.{
  ProfileAccumulator, defaults, apply, Layer, apply_layers, mark, runtime_origin,
}

pub data RuntimeField : Type 0 where
  executor checkpoint_store state_dir permissions required_capabilities fallback_executors :
      RuntimeField

abbrev pub name : RuntimeField → String
name executor = "executor"
name checkpoint_store = "checkpoint_store"
name state_dir = "state_dir"
name permissions = "permissions"
name required_capabilities = "required_capabilities"
name fallback_executors = "fallback_executors"

abbrev pub supplies : RuntimeField → Option RuntimeProfileOverlay → Bool
supplies f none = false
supplies executor (some o) = is_some o.executor
supplies checkpoint_store (some o) = is_some o.checkpoint_store
supplies state_dir (some o) = is_some o.state_dir
supplies permissions (some o) = is_some o.permissions
supplies required_capabilities (some o) = is_some o.required_capabilities
supplies fallback_executors (some o) = is_some o.fallback_executors

abbrev pub later : {A : Type 0} → Option A → Option A → Option A
later none earlier = earlier
later (some x) earlier = some x

abbrev pub supplied :
    {A : Type 0} → (RuntimeProfileOverlay → Option A) → Option RuntimeProfileOverlay → Option A
supplied value none = none
supplied value (some o) = value o

-- The last of the layers that supplies the field.
abbrev pub supplier : RuntimeField → List Layer → Option Layer
supplier f [] = none
supplier f (l ∷ ls) = later (supplier f ls) (if supplies f l.overlay then some l else none)

-- What the last layer that supplies a value supplies.
abbrev pub latest_value : {A : Type 0} → (RuntimeProfileOverlay → Option A) → List Layer → Option A
latest_value value [] = none
latest_value value (l ∷ ls) = later (latest_value value ls) (supplied value l.overlay)

get-mark :
    (field : String) (b : Bool) (source : ConfigSource) (path : Option String)
    (d : Dict ValueOrigin) (j : String)
    → get (mark field b source path d) j
      ≡ (if (field == j) && b then some (runtime_origin field source path) else get d j)
get-mark field true source path d j =
    ground (arith, get-put d field j (runtime_origin field source path))
get-mark field false source path d j = ground arith

get-apply :
    (f : RuntimeField) (o : Option RuntimeProfileOverlay) (source : ConfigSource)
    (path : Option String) (a : ProfileAccumulator)
    → get (apply o source path a).origins (name f) ≡ (
        if supplies f o then some (runtime_origin (name f) source path) else get a.origins (name f))
unfolding apply
get-apply f none source path a = refl
get-apply executor (some o) source path a = simp get-mark
get-apply checkpoint_store (some o) source path a = simp get-mark
get-apply state_dir (some o) source path a = simp get-mark
get-apply permissions (some o) source path a = simp get-mark
get-apply required_capabilities (some o) source path a = simp get-mark
get-apply fallback_executors (some o) source path a = simp get-mark

abbrev pub origin_of : RuntimeField → Option Layer → ValueOrigin
origin_of f none = runtime_origin (name f) default none
origin_of f (some l) = runtime_origin (name f) l.source l.source_path

origin_from : RuntimeField → Option Layer → Option ValueOrigin → Option ValueOrigin
origin_from f none there = there
origin_from f (some l) there = some (origin_of f (some l))

origin_from-later :
    (f : RuntimeField) (x : Option Layer) (b : Bool) (l : Layer) (there : Option ValueOrigin)
    → origin_from f x (if b then some (origin_of f (some l)) else there)
      ≡ origin_from f (later x (if b then some l else none)) there
unfolding origin_from
origin_from-later f none true l there = refl
origin_from-later f none false l there = refl
origin_from-later f (some x) b l there = refl

get-apply_layers :
    (f : RuntimeField) (ls : List Layer) (a : ProfileAccumulator)
    → get (apply_layers ls a).origins (name f)
      ≡ origin_from f (supplier f ls) (get a.origins (name f))
unfolding apply_layers origin_from
get-apply_layers f [] a = refl
get-apply_layers f (l ∷ ls) a =
    get-apply_layers f ls (apply l.overlay l.source l.source_path a)
    ∙ ap (origin_from f (supplier f ls)) (get-apply f l.overlay l.source l.source_path a)
    ∙ origin_from-later f (supplier f ls) (supplies f l.overlay) l (get a.origins (name f))

get-defaults : (f : RuntimeField) → get defaults.origins (name f) ≡ some (origin_of f none)
unfolding defaults get put
get-defaults executor = refl
get-defaults checkpoint_store = refl
get-defaults state_dir = refl
get-defaults permissions = refl
get-defaults required_capabilities = refl
get-defaults fallback_executors = refl

origin_from-some :
    (f : RuntimeField) (x : Option Layer)
    → origin_from f x (some (origin_of f none)) ≡ some (origin_of f x)
unfolding origin_from
origin_from-some f none = refl
origin_from-some f (some l) = refl

-- The origin recorded for each field of a profile names the last layer that supplies the field, or the
-- defaults where none does.
pub origins_name_suppliers :
    (ls : List Layer) (f : RuntimeField)
    → get (apply_layers ls defaults).origins (name f) ≡ some (origin_of f (supplier f ls))
origins_name_suppliers ls f =
    get-apply_layers f ls defaults
    ∙ ap (origin_from f (supplier f ls)) (get-defaults f)
    ∙ origin_from-some f (supplier f ls)

or_else-later :
    {A : Type 0} (d : A) (x y : Option A) → or_else (or_else d x) y ≡ or_else d (later y x)
or_else-later d x none = refl
or_else-later d x (some a) = refl

-- A field that each layer overrides where it supplies a value.
module _ {A : Type 0} (field : ProfileAccumulator → A) (value : RuntimeProfileOverlay → Option A)
    (steps : (l : Layer) (a : ProfileAccumulator)
      → field (apply l.overlay l.source l.source_path a)
        ≡ or_else (field a) (supplied value l.overlay)) where
  pub field-apply_layers :
      (ls : List Layer) (a : ProfileAccumulator)
      → field (apply_layers ls a) ≡ or_else (field a) (latest_value value ls)
  unfolding apply_layers
  field-apply_layers [] a = refl
  field-apply_layers (l ∷ ls) a =
      field-apply_layers ls (apply l.overlay l.source l.source_path a)
      ∙ ap (λ d. or_else d (latest_value value ls)) (steps l a)
      ∙ or_else-later (field a) (supplied value l.overlay) (latest_value value ls)

  -- Four layers, of which the first is the weakest.
  pub four_layers :
      (k l m n : Layer) (a : ProfileAccumulator)
      → field (apply_layers (k ∷ l ∷ m ∷ n ∷ []) a)
        ≡ or_else
            (or_else
              (or_else (or_else (field a) (supplied value k.overlay)) (supplied value l.overlay))
              (supplied value m.overlay))
            (supplied value n.overlay)
  unfolding apply_layers
  four_layers k l m n a =
      let one = apply k.overlay k.source k.source_path a in
      let two = apply l.overlay l.source l.source_path one in
      let three = apply m.overlay m.source m.source_path two in
      steps n three
      ∙ ap (λ d. or_else d (supplied value n.overlay))
          (steps m two
            ∙ ap (λ d. or_else d (supplied value m.overlay))
                (steps l one ∙ ap (λ d. or_else d (supplied value l.overlay)) (steps k a)))

pub apply-executor :
    (o : Option RuntimeProfileOverlay) (source : ConfigSource) (path : Option String)
    (a : ProfileAccumulator)
    → (apply o source path a).executor ≡ or_else a.executor (supplied (λ o. o.executor) o)
unfolding apply
apply-executor none source path a = refl
apply-executor (some o) source path a = refl

pub apply-checkpoint_store :
    (o : Option RuntimeProfileOverlay) (source : ConfigSource) (path : Option String)
    (a : ProfileAccumulator)
    → (apply o source path a).checkpoint_store
      ≡ or_else a.checkpoint_store (supplied (λ o. o.checkpoint_store) o)
unfolding apply
apply-checkpoint_store none source path a = refl
apply-checkpoint_store (some o) source path a = refl

pub apply-permissions :
    (o : Option RuntimeProfileOverlay) (source : ConfigSource) (path : Option String)
    (a : ProfileAccumulator)
    → (apply o source path a).permissions ≡ or_else a.permissions (supplied (λ o. o.permissions) o)
unfolding apply
apply-permissions none source path a = refl
apply-permissions (some o) source path a = refl

pub apply-required_capabilities :
    (o : Option RuntimeProfileOverlay) (source : ConfigSource) (path : Option String)
    (a : ProfileAccumulator)
    → (apply o source path a).required_capabilities
      ≡ or_else a.required_capabilities (supplied (λ o. o.required_capabilities) o)
unfolding apply
apply-required_capabilities none source path a = refl
apply-required_capabilities (some o) source path a = refl

pub apply-fallback_executors :
    (o : Option RuntimeProfileOverlay) (source : ConfigSource) (path : Option String)
    (a : ProfileAccumulator)
    → (apply o source path a).fallback_executors
      ≡ or_else a.fallback_executors (supplied (λ o. o.fallback_executors) o)
unfolding apply
apply-fallback_executors none source path a = refl
apply-fallback_executors (some o) source path a = refl

apply-state_dir :
    (o : Option RuntimeProfileOverlay) (source : ConfigSource) (path : Option String)
    (a : ProfileAccumulator)
    → (apply o source path a).state_dir ≡ later (supplied (λ o. o.state_dir) o) a.state_dir
unfolding apply
apply-state_dir none source path a = refl
apply-state_dir (some o) source path a = ground arith

later_assoc : {A : Type 0} (x y z : Option A) → later x (later y z) ≡ later (later x y) z
later_assoc none y z = refl
later_assoc (some a) y z = refl

apply_layers-state_dir :
    (ls : List Layer) (a : ProfileAccumulator)
    → (apply_layers ls a).state_dir ≡ later (latest_value (λ o. o.state_dir) ls) a.state_dir
unfolding apply_layers
apply_layers-state_dir [] a = refl
apply_layers-state_dir (l ∷ ls) a =
    let x = latest_value (λ o. o.state_dir) ls in
    apply_layers-state_dir ls (apply l.overlay l.source l.source_path a)
    ∙ ap (later x) (apply-state_dir l.overlay l.source l.source_path a)
    ∙ later_assoc x (supplied (λ o. o.state_dir) l.overlay) a.state_dir

-- Each field of a profile is the value of the last layer that supplies one, and else the one of the
-- profile that the layers were applied to; an overlay that leaves a field out never changes it.
pub latest_layer_wins :
    (ls : List Layer) (a : ProfileAccumulator)
    → ((apply_layers ls a).executor ≡ or_else a.executor (latest_value (λ o. o.executor) ls))
      × ((apply_layers ls a).checkpoint_store
          ≡ or_else a.checkpoint_store (latest_value (λ o. o.checkpoint_store) ls))
      × ((apply_layers ls a).state_dir ≡ later (latest_value (λ o. o.state_dir) ls) a.state_dir)
      × ((apply_layers ls a).permissions
          ≡ or_else a.permissions (latest_value (λ o. o.permissions) ls))
      × ((apply_layers ls a).required_capabilities
          ≡ or_else a.required_capabilities (latest_value (λ o. o.required_capabilities) ls))
      × ((apply_layers ls a).fallback_executors
          ≡ or_else a.fallback_executors (latest_value (λ o. o.fallback_executors) ls))
latest_layer_wins ls a = (
  field-apply_layers (λ a. a.executor) (λ o. o.executor)
      (λ l a. apply-executor l.overlay l.source l.source_path a) ls a,
  field-apply_layers (λ a. a.checkpoint_store) (λ o. o.checkpoint_store)
      (λ l a. apply-checkpoint_store l.overlay l.source l.source_path a) ls a,
  apply_layers-state_dir ls a,
  field-apply_layers (λ a. a.permissions) (λ o. o.permissions)
      (λ l a. apply-permissions l.overlay l.source l.source_path a) ls a,
  field-apply_layers (λ a. a.required_capabilities) (λ o. o.required_capabilities)
      (λ l a. apply-required_capabilities l.overlay l.source l.source_path a) ls a,
  field-apply_layers (λ a. a.fallback_executors) (λ o. o.fallback_executors)
      (λ l a. apply-fallback_executors l.overlay l.source l.source_path a) ls a,
)
