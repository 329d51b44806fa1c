-- ===== src/Thinking/Tests.antt =====
-- The parsing of answers at concrete texts.
use ocg.Base.{arith, ℕ, ◌≡◌, refl, true, false, List, [], ◌∷◌, nat_eq}
use ocg.Base.Search.{index}
use ocg.Base.Text.{codes, trim_space, is_space, trim_left, text_eq}
use ocg.Thinking.{
  thinking_mode_on, default_thinking_config, new_thinking_processor, is_enabled, start, append, end,
  add_block, parse_loop, parse_thinking_blocks, extract_thinking_from_stream, extract_final_answer,
}
use ocg.Thinking.Agree.{extract_thinking_from_stream-parse_thinking_blocks}
use ocg.Thinking.Blocks.{Parsed, parse_thinking_blocks-Parsed}

abbrev answer : List ℕ
answer = codes "<think>a</think> b<think>c"

two_blocks : parse_thinking_blocks answer ≡ (codes "a" ∷ codes "c" ∷ [], codes " b")
unfolding parse_thinking_blocks parse_loop index
two_blocks = refl

final_answer : extract_final_answer answer ≡ codes "b"
unfolding extract_final_answer parse_thinking_blocks parse_loop index trim_space trim_left is_space
final_answer = refl

-- The removal of a block can join the parts of a new start tag, which the next round finds.
joined_tag :
    parse_thinking_blocks (codes "<th<think>a</think>ink>b") ≡ (codes "a" ∷ codes "b" ∷ [], [])
unfolding parse_thinking_blocks parse_loop index
joined_tag = refl

-- Where an end tag comes first, the stream's reader drops the text after the block.
end_first :
    extract_thinking_from_stream (codes "x</think>y<think>z</think>w")
    ≡ ([], codes "x</think>y", true)
unfolding extract_thinking_from_stream index
end_first = refl

parse_thinking_blocks-Parsed_example : Parsed answer (parse_thinking_blocks answer)
parse_thinking_blocks-Parsed_example = parse_thinking_blocks-Parsed answer

-- The first block of a text with two.
extract_thinking_from_stream-parse_thinking_blocks_example :
    let (thinking, remaining, has_thinking) = extract_thinking_from_stream answer in
    (has_thinking ≡ true)
    × (parse_thinking_blocks answer ≡ add_block thinking (parse_thinking_blocks remaining))
unfolding index
extract_thinking_from_stream-parse_thinking_blocks_example =
    extract_thinking_from_stream-parse_thinking_blocks answer 0 8 refl refl (omega arith)

-- A processor that is on keeps what is appended between start and end; one that is off does not.
thought_kept :
    (end (
      append (codes "b") (
        append (codes "a") (
          start (
            new_thinking_processor (record {
              mode = thinking_mode_on;
              max_tokens = 10;
              include_reason = false;
            })))))).final_text
    ≡ codes "ab"
unfolding end append start new_thinking_processor is_enabled
thought_kept = refl

thought_off :
    (end (append (codes "a") (start (new_thinking_processor default_thinking_config)))).final_text
    ≡ []
unfolding end append start new_thinking_processor is_enabled
thought_off = refl
