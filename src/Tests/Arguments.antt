-- ===== src/Tests/Arguments.antt =====
-- The argument transformers and the placeholder check on small documents.
use mcp_multiplexer.Base.{
  bytes, ◌≡◌, refl, true, false, [], ◌∷◌, ◌↔◌, contains, lookup, insert, insert_all, text_eq,
  text_beq, is_ascii, lower_byte, upper_byte, join, nat_eq,
}
use mcp_multiplexer.Json.{null, str, arr, obj, nil, item, Fields, end, field}
use mcp_multiplexer.Json.Access.{get, put}
use mcp_multiplexer.Transform.{
  Unicode, to_lower, upper_first, camel_parts, snake_to_camel, camel_into, snake_to_camel_keys,
  join_array, join_into, join_string_arrays, renamed, apply_field_map, k8s_resource_singular,
  merged_singular_map, singularize_resource_type, copy_into,
}
use mcp_multiplexer.Transform.Names
use mcp_multiplexer.Transform.Names.{camel_scan}
use mcp_multiplexer.Transform.Camel
use mcp_multiplexer.Transform.Camel.{is_camel}
use mcp_multiplexer.Validate.{is_placeholder, walk_args, find_invalid_args, field_path}
use mcp_multiplexer.Validate.Placeholders
use mcp_multiplexer.Validate.Placeholders.{Placeholder}

-- No text of these runs is outside ASCII.
abbrev ascii : Unicode
ascii = record { lower = λ s. s; trim = λ s. s }

-- Everything that the runs compute with.
transforms : Unit {0}
unfolding text_beq snake_to_camel snake_to_camel_keys camel_into put get join_string_arrays
    join_into join_array join apply_field_map renamed lookup insert insert_all merged_singular_map
    singularize_resource_type copy_into to_lower is_ascii lower_byte upper_byte find_invalid_args
    walk_args is_placeholder field_path camel_parts upper_first
transforms = tt

abbrev snake : Fields
snake =
    field (bytes "pod_name") (str (bytes "a"))
      (field (bytes "n_s") (obj (field (bytes "x_y") null end)) end)

snake_run :
    snake_to_camel_keys snake
    ≡ field
        (bytes "podName")
        (str (bytes "a"))
        (field (bytes "nS") (obj (field (bytes "xY") null end)) end)
unfolding transforms
snake_run = refl

-- The first byte of a two-byte character is replaced by U+FFFD, and the second stays.
snake_to_camel_run : snake_to_camel (97 ∷ b'_' ∷ 195 ∷ 169 ∷ []) ≡ 97 ∷ 239 ∷ 191 ∷ 189 ∷ 169 ∷ []
unfolding transforms
snake_to_camel_run = refl

snake_to_camel-lacks_underscore_example : contains b'_' (snake_to_camel (bytes "a_b_")) ≡ false
snake_to_camel-lacks_underscore_example = Names.snake_to_camel-lacks_underscore (bytes "a_b_")

snake_to_camel_keys-is_camel_example : is_camel (snake_to_camel_keys snake) ≡ true
snake_to_camel_keys-is_camel_example = Camel.snake_to_camel_keys-is_camel snake

abbrev argv : Fields
argv = field (bytes "argv") (arr (item (str (bytes "ls")) (item (str (bytes "-l")) nil))) end

join_run : join_string_arrays argv ≡ field (bytes "argv") (str (bytes "ls -l")) end
unfolding transforms
join_run = refl

abbrev pods : Fields
pods = field (bytes "resourceType") (str (bytes "Pods")) end

pods_run :
    singularize_resource_type ascii pods k8s_resource_singular
    ≡ field (bytes "resourceType") (str (bytes "pod")) end
unfolding transforms
pods_run = refl

abbrev unresolved : Fields
unresolved =
    field (bytes "a") (obj (field (bytes "b") (str (bytes " Unknown ")) end))
      (field (bytes "c") (str (bytes "x")) end)

unresolved_run : find_invalid_args ascii unresolved ≡ bytes "a.b" ∷ []
unfolding transforms
unresolved_run = refl

-- A placeholder in an array passes.
array_run :
    find_invalid_args ascii (field (bytes "a") (arr (item (str (bytes "undefined")) nil)) end) ≡ []
unfolding transforms
array_run = refl

find_invalid_args_iff_example :
    (contains (bytes "a.b") (find_invalid_args ascii unresolved) ≡ true)
    ↔ Placeholder ascii (obj unresolved) [] (bytes "a.b")
find_invalid_args_iff_example = Placeholders.find_invalid_args_iff ascii unresolved (bytes "a.b")
