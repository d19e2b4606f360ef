-- ===== src/Transform.antt =====
-- transform.go: the argument transformers that CallTool applies before it sends a request.
pub mod Names
pub mod Keys
pub mod Camel
pub mod Arrays
pub mod Resources
use mcp_multiplexer.Base.{
  ℕ, ◌+◌, Text, text_eq, bytes, ◌==◌, if◌then◌else◌, Bool, true, false, ltb, Option, none, some,
  List, [], ◌∷◌, ◌++◌, join, is_empty, is_ascii, lower_byte, upper_byte, map, lookup, insert_all,
  nat_beq,
}
use mcp_multiplexer.Json.{
  Value, null, bool, num, str, arr, obj, Items, nil, item, Fields, end, field, GoMap, contents,
}
use mcp_multiplexer.Json.Access.{get, put}

-- What `strings.ToLower` and `strings.TrimSpace` do to a text that is not all ASCII: the Unicode
-- tables of the Go standard library.
pub record Unicode : Type 0 where
  pub lower : Text → Text
  pub trim : Text → Text

-- `strings.ToLower`
unfoldable pub to_lower : Unicode → Text → Text
to_lower u s = if is_ascii s then map lower_byte s else u.lower s

push : ℕ → List Text → List Text
push x [] = (x ∷ []) ∷ []
push x (p ∷ ps) = (x ∷ p) ∷ ps

-- `strings.Split` at one byte
unfoldable pub split : ℕ → Text → List Text
unfolding push
split c [] = [] ∷ []
split c (x ∷ s) = let parts = split c s in if nat_beq x c then [] ∷ parts else push x parts

-- `strings.ToUpper(p[:1])`: a first byte outside ASCII is no whole rune, and Go writes U+FFFD.
unfoldable pub upper_first : ℕ → Text
upper_first c = if ltb c 128 then upper_byte c ∷ [] else 239 ∷ 191 ∷ 189 ∷ []

-- One round of the loop of `snakeToCamel`: what it writes for the part `p`.
unfoldable pub camel_part : Text → Text
unfolding upper_first
camel_part [] = []
camel_part (c ∷ p) = upper_first c ++ p

unfoldable pub camel_parts : List Text → Text
unfolding camel_part
camel_parts [] = []
camel_parts (p ∷ ps) = camel_part p ++ camel_parts ps

join_parts : Text → List Text → Text
unfolding camel_parts
join_parts s [] = s
join_parts s (p ∷ []) = s
join_parts s (p ∷ q ∷ ps) = p ++ camel_parts (q ∷ ps)

unfoldable pub snake_to_camel : Text → Text
unfolding split join_parts
snake_to_camel s = join_parts s (split b'_' s)

-- `snakeToCamelKeys`: the loop, `out` being the map built so far, and its recursive call on a value.
unfoldable mutual
  pub camel_into : Fields → Fields → Fields
  camel_into end out = out
  camel_into (field k v m) out = camel_into m (put (snake_to_camel k) (camel_value v) out)

  pub camel_value : Value → Value
  camel_value null = null
  camel_value (bool b) = bool b
  camel_value (num n) = num n
  camel_value (str s) = str s
  camel_value (arr xs) = arr xs
  camel_value (obj m) = obj (camel_into m end)

unfoldable pub snake_to_camel_keys : Fields → Fields
snake_to_camel_keys m = camel_into m end

-- The inner loop of `joinStringArrays`: the strings of an array of strings alone.
unfoldable pub all_strings : Items → Option (List Text)
all_strings nil = some []
all_strings (item (str s) xs) = elim (all_strings xs) [ none ↦ none | some ss ↦ some (s ∷ ss) ]
all_strings (item _ xs) = none

unfoldable pub join_array : Items → Value
unfolding all_strings
join_array xs = elim (all_strings xs) [ none ↦ arr xs | some ss ↦ str (join (bytes " ") ss) ]

-- `joinStringArrays`
unfoldable mutual
  pub join_into : Fields → Fields → Fields
  join_into end out = out
  join_into (field k v m) out = join_into m (put k (join_value v) out)

  pub join_value : Value → Value
  join_value null = null
  join_value (bool b) = bool b
  join_value (num n) = num n
  join_value (str s) = str s
  join_value (arr xs) = join_array xs
  join_value (obj m) = obj (join_into m end)

unfoldable pub join_string_arrays : Fields → Fields
join_string_arrays m = join_into m end

-- `applyFieldMap`
unfoldable pub renamed : List (Text × Text) → Text → Text
renamed fm k = elim (lookup k fm) [ none ↦ k | some r ↦ r ]

unfoldable pub field_map_into : List (Text × Text) → Fields → Fields → Fields
unfolding renamed
field_map_into fm end out = out
field_map_into fm (field k v m) out = field_map_into fm m (put (renamed fm k) v out)

unfoldable pub apply_field_map : Fields → List (Text × Text) → Fields
unfolding field_map_into
apply_field_map args fm = if is_empty fm then args else field_map_into fm args end

-- `k8sResourceSingular`
abbrev pub k8s_resource_singular : List (Text × Text)
k8s_resource_singular =
    (bytes "pods", bytes "pod")
    ∷ (bytes "deployments", bytes "deployment")
    ∷ (bytes "services", bytes "service")
    ∷ (bytes "namespaces", bytes "namespace")
    ∷ (bytes "nodes", bytes "node")
    ∷ (bytes "configmaps", bytes "configmap")
    ∷ (bytes "secrets", bytes "secret")
    ∷ (bytes "statefulsets", bytes "statefulset")
    ∷ (bytes "daemonsets", bytes "daemonset")
    ∷ (bytes "replicasets", bytes "replicaset")
    ∷ (bytes "ingresses", bytes "ingress")
    ∷ (bytes "jobs", bytes "job")
    ∷ (bytes "cronjobs", bytes "cronjob")
    ∷ []

-- `DefaultResourceSingular`: the copy, by a loop of writes into an empty map.
unfoldable pub default_resource_singular : List (Text × Text)
default_resource_singular = insert_all [] k8s_resource_singular

unfoldable pub merged_singular_map : List (Text × Text) → List (Text × Text) → List (Text × Text)
merged_singular_map global per_server =
    insert_all (insert_all k8s_resource_singular global) per_server

abbrev pub resource_type : Text
resource_type = bytes "resourceType"

unfoldable pub copy_into : Fields → Fields → Fields
copy_into end out = out
copy_into (field k v m) out = copy_into m (put k v out)

singularize_found : Fields → Option Text → Fields
singularize_found args none = args
singularize_found args (some s) = put resource_type (str s) (copy_into args end)

singularize_value : Unicode → Fields → List (Text × Text) → Option Value → Fields
unfolding singularize_found to_lower
singularize_value u args singular (some (str s)) =
    singularize_found args (lookup (to_lower u s) singular)
singularize_value u args singular _ = args

unfoldable pub singularize_resource_type : Unicode → Fields → List (Text × Text) → Fields
unfolding singularize_value
singularize_resource_type u args singular =
    singularize_value u args singular (get resource_type args)

-- `singularizeResourceType` and `applyFieldMap` give back a nil map where they have nothing to do.
singularize_map : Unicode → GoMap → List (Text × Text) → GoMap
singularize_map u none singular = none
singularize_map u (some args) singular = some (singularize_resource_type u args singular)

unfoldable pub apply_field_map_to : GoMap → List (Text × Text) → GoMap
apply_field_map_to args fm = if is_empty fm then args else some (apply_field_map (contents args) fm)

-- The registered `CustomTransformer`s, each a function of the arguments; `none` is a nil function.
abbrev pub Custom : Type 0
Custom = List (Text × Option (GoMap → GoMap))

apply_custom : Option (Option (GoMap → GoMap)) → GoMap → GoMap
apply_custom (some (some fn)) args = fn args
apply_custom _ args = args

unfoldable pub apply_args_transformer : Unicode → Text → GoMap → Custom → List (Text × Text) → GoMap
unfolding apply_custom singularize_map
apply_args_transformer u t args custom singular =
    if t == bytes "camelCase"
    then some (snake_to_camel_keys (contents args))
    else if t == bytes "joinArrays"
    then some (join_string_arrays (contents args))
    else if t == bytes "singularResourceType"
    then singularize_map u args singular
    else apply_custom (lookup t custom) args

-- `ArgsTransformers.applyAll`
unfoldable pub apply_all : Unicode → List Text → GoMap → Custom → List (Text × Text) → GoMap
apply_all u [] args custom singular = args
apply_all u (t ∷ ts) args custom singular =
    apply_all u ts (apply_args_transformer u t args custom singular) custom singular
