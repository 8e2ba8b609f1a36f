-- ===== src/Examples/Directory.antt =====
-- The merge of a directory of segments.
use textiplex.Prelude.{arith, ℕ, ◌+◌, ◌≡◌, refl, [], ◌∷◌}
use textiplex.Bytes.{compare_bytes}
use textiplex.Storage.Headers.{Float32, magic_number, version_v1}
use textiplex.Writer.{
  SegmentContent, saved, merged, Directory, segment_name, hex_digits, lookup_file, load_file,
  merge_pair, merge_chunks, running, undetermined, merge_directory, merge_directory-running,
}
use textiplex.Writer.Rounds.{HasEnded, merge_directory-HasEnded}
use textiplex.Examples.Bits.{bits}
use textiplex.Examples.Little.{little}

abbrev average : ℕ → ℕ → Float32
average total count = total + count

merge_directory-running_example :
    merge_directory little bits average 9 (record { files = []; segment_counter = 3 })
    ≡ running (record { files = []; segment_counter = 3 })
merge_directory-running_example = merge_directory-running little bits average 9 3

abbrev empty_segment : SegmentContent
empty_segment = merged (record {
  header = record {
    magic = magic_number;
    version = version_v1;
    total_documents = 0;
    field_count = 0;
    total_posting_lists = 0;
    total_posting_lists_data_size = 0;
    total_token_frequencies = 0;
  };
  document_ids = [];
  token_frequencies = [];
  sections = [];
  posting_list_headers = [];
  posting_lists_bytes = [];
})

-- The counter of a new writer starts where that of the former did.
abbrev left_behind : Directory
left_behind = record {
  files = (segment_name 1, empty_segment) ∷ (segment_name 2, empty_segment) ∷ [];
  segment_counter = 0;
}

abbrev two_files : Directory
two_files = record {
  files = (97 ∷ [], empty_segment) ∷ (98 ∷ [], saved []) ∷ [];
  segment_counter = 0;
}

merge_directory-HasEnded_example : HasEnded (merge_directory little bits average 2 two_files)
unfolding compare_bytes
merge_directory-HasEnded_example =
    merge_directory-HasEnded little bits average 2 two_files ((refl, tt), (tt, tt)) (omega arith)
      (omega arith)

name_of_ten : hex_digits 3 171 ≡ 48 ∷ 65 ∷ 66 ∷ []
unfolding hex_digits
name_of_ten = refl

into_its_own_file : merge_directory little bits average 4 left_behind ≡ undetermined
unfolding merge_directory merge_chunks merge_pair load_file lookup_file segment_name hex_digits
    compare_bytes
into_its_own_file = refl
