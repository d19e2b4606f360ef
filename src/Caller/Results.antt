-- ===== src/Caller/Results.antt =====
-- `buildResult`: from the server's content blocks to a CallResult.
use mcp_multiplexer.Base.{Text, bytes, Option, none, some, List, [], ◌∷◌, ◌++◌, join}
use mcp_multiplexer.Tool.{
  ContentPart, content_text, content_image, content_other, CallResult, empty_result,
}
use mcp_multiplexer.Host.{Content, text_content, image_content, other_content, RawResult}

-- One round of the loop: the part and the text that a block adds, none if it cannot be marshalled.
unfoldable pub build_part : Content → Option (ContentPart × Text)
build_part (text_content t) =
    some (record { kind = content_text; text = t; mime_type = []; bin = none; raw = none }, t)
build_part (image_content mime image) = some (
  record { kind = content_image; text = []; mime_type = mime; bin = image; raw = none },
  bytes "[image: " ++ (mime ++ bytes "]"),
)
build_part (other_content none) = none
build_part (other_content (some b)) =
    some (record { kind = content_other; text = []; mime_type = []; bin = none; raw = some b }, b)

push_part :
    Option (ContentPart × Text) → List ContentPart × List Text → List ContentPart × List Text
push_part none acc = acc
push_part (some (p, t)) (parts, texts) = (p ∷ parts, t ∷ texts)

-- The loop: the parts and the texts, in order.
unfoldable pub build_parts : List Content → List ContentPart × List Text
unfolding push_part build_part
build_parts [] = ([], [])
build_parts (c ∷ cs) = push_part (build_part c) (build_parts cs)

unfoldable pub build_result : Option RawResult → CallResult
unfolding build_parts
build_result none = empty_result
build_result (some r) =
    let (parts, texts) = build_parts r.content in
    record { text = join (bytes "\n") texts; parts = parts; is_error = r.is_error }
