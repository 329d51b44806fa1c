-- ===== src/Thinking.antt =====
-- agent/thinking.go: the blocks between <think> and </think> in an answer of a model. A text is the
-- list of its bytes; the places that strings.Index gives are those of Base/Search.
pub mod Blocks
pub mod Agree
mod Tests
use ocg.Base.{
  ℕ, zero, suc, ◌+◌, ◌≡◌, Bool, true, false, not, ◌&&◌, ◌||◌, List, [], ◌∷◌, ◌++◌, Option, none,
  some, if◌then◌else◌, ltb, length, take, drop, ◌==◌, nat_eq, string_eq, String,
}
use ocg.Base.Search.{index}
use ocg.Base.Text.{codes, trim_space, text_eq}
use ocg.Base.Int.{ℤ, pos}

abbrev pub ThinkingMode : Type 0
ThinkingMode = List ℕ

abbrev pub thinking_mode_off : ThinkingMode
thinking_mode_off = codes "off"

abbrev pub thinking_mode_on : ThinkingMode
thinking_mode_on = codes "on"

abbrev pub thinking_mode_stream : ThinkingMode
thinking_mode_stream = codes "stream"

pub record ThinkingConfig : Type 0 where
  pub mode : ThinkingMode
  pub max_tokens : ℕ
  pub include_reason : Bool

abbrev pub default_thinking_config : ThinkingConfig
default_thinking_config = record {
  mode = thinking_mode_off;
  max_tokens = 4000;
  include_reason = false;
}

pub record ThinkingProcessor : Type 0 where
  pub config : ThinkingConfig
  pub buf : List ℕ
  pub is_active : Bool
  pub final_text : List ℕ

unfoldable pub new_thinking_processor : ThinkingConfig → ThinkingProcessor
new_thinking_processor cfg = record {
  config = if cfg.max_tokens == 0 then default_thinking_config else cfg;
  buf = [];
  is_active = false;
  final_text = [];
}

unfoldable pub is_enabled : ThinkingProcessor → Bool
is_enabled p = not (p.config.mode == thinking_mode_off)

unfoldable pub is_stream : ThinkingProcessor → Bool
is_stream p = p.config.mode == thinking_mode_stream

unfoldable pub start : ThinkingProcessor → ThinkingProcessor
start p = record p { is_active = true; buf = [] }

unfoldable pub append : List ℕ → ThinkingProcessor → ThinkingProcessor
unfolding is_enabled
append text p = if not (is_enabled p) then p else record p { buf = p.buf ++ text }

unfoldable pub end : ThinkingProcessor → ThinkingProcessor
end p = record p { is_active = false; final_text = p.buf }

abbrev pub open_tag : List ℕ
open_tag = codes "<think>"

abbrev pub close_tag : List ℕ
close_tag = codes "</think>"

abbrev pub extract_at : List ℕ → Option ℕ → Option ℕ → List ℕ × List ℕ × Bool
extract_at text none finish = ([], text, false)
extract_at text (some begin) none = ([], take begin text, true)
extract_at text (some begin) (some finish) =
    if ltb begin finish
    then
        -- `data[thinkingStart+len("<think>") : thinkEnd]`
        (drop (begin + 7) (take finish text), take begin text ++ drop (finish + 8) text, true)
    else ([], take begin text, true)

-- `ExtractThinkingFromStream`: the thinking, the rest, and whether there is thinking.
unfoldable pub extract_thinking_from_stream : List ℕ → List ℕ × List ℕ × Bool
unfolding index
extract_thinking_from_stream text = extract_at text (index open_tag text) (index close_tag text)

abbrev pub add_block : List ℕ → List (List ℕ) × List ℕ → List (List ℕ) × List ℕ
add_block block (blocks, remainder) = (block ∷ blocks, remainder)

-- What the loop removes for a block that ends, in front of the text that follows the start tag.
abbrev pub without_block : List ℕ → ℕ → ℕ → List ℕ
without_block remainder begin finish =
    take begin remainder ++ drop (finish + 8) (drop (begin + 7) remainder)

-- The loop of `ParseThinkingBlocks`; each round but the last takes out a block with its tags, and
-- the length of the text is fuel enough.
abbrev pub next_block :
    (List ℕ → List (List ℕ) × List ℕ) → List ℕ → ℕ → Option ℕ → List (List ℕ) × List ℕ
next_block more remainder begin none = (drop (begin + 7) remainder ∷ [], take begin remainder)
next_block more remainder begin (some finish) =
    add_block (take finish (drop (begin + 7) remainder))
      (more (without_block remainder begin finish))

abbrev pub from_start :
    (List ℕ → List (List ℕ) × List ℕ) → List ℕ → Option ℕ → List (List ℕ) × List ℕ
from_start more remainder none = ([], remainder)
from_start more remainder (some begin) =
    next_block more remainder begin (index close_tag (drop (begin + 7) remainder))

unfoldable pub parse_loop : ℕ → List ℕ → List (List ℕ) × List ℕ
unfolding index
parse_loop zero remainder = ([], remainder)
parse_loop (suc fuel) remainder = from_start (parse_loop fuel) remainder (index open_tag remainder)

unfoldable pub parse_thinking_blocks : List ℕ → List (List ℕ) × List ℕ
unfolding parse_loop
parse_thinking_blocks content = parse_loop (suc (length content)) content

unfoldable pub extract_final_answer : List ℕ → List ℕ
unfolding parse_thinking_blocks trim_space
extract_final_answer response = trim_space (parse_thinking_blocks response).1
