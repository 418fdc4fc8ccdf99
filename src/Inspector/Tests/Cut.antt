-- ===== src/Inspector/Tests/Cut.antt =====
-- A run of the summary of storage items that leaves an entry out without its marker.
use endstone_blockdata_api.Base.{◌≡◌, refl, contains, false, string_eq, nat_eq}
use endstone_blockdata_api.Base.Dict
use endstone_blockdata_api.Base.Lists.{length}
use endstone_blockdata_api.Base.Texts.{take_chars, on_one_line, has_char}
use endstone_blockdata_api.Nbt.{
  as_dict, as_list, as_str, as_int, entries, of_entries, elements, of_elements, get_first,
}
use endstone_blockdata_api.Nbt.Sample.{plain, digits, digits_from}
use endstone_blockdata_api.Nbt.Conversion.{to_str, to_bool, get_or}
use endstone_blockdata_api.StorageItem.Reading.{
  identifier, first_name, name_in, tag, is_vanilla_bundle_identifier, is_shulker_box,
}
use endstone_blockdata_api.Inspector.Python.{get, get_chain}
use endstone_blockdata_api.Inspector.Reading.{
  is_no_count, is_true, bounded_item_text, display_name, label_id, with_name,
  storage_item_identifier, storage_item_tag, text_or_empty, is_empty_mapping, is_empty_item,
  number_text, custom_name_of, describe_mapping, item_description, is_bundle_name, is_storage_item,
}
use endstone_blockdata_api.Inspector.Summary.{
  contents_state, contents_of_tag, contents_of_mapping, serialized_storage_contents, emit, set_last,
  show_entry, show_entries, show_hidden, walk_contents, show_state, walk_item, walk, show_parent,
  show_parents, finish_summary, storage_item_summary_lines, truncation_marker,
}
use endstone_blockdata_api.Inspector.Tests.{python, overfull}

-- An entry is left out, and no line says so.
cut_unmarked :
    (length (storage_item_summary_lines python overfull) ≡ 32)
    × (contains (storage_item_summary_lines python overfull) (truncation_marker python) ≡ false)
unfolding string_eq nat_eq Dict.lookup take_chars on_one_line has_char as_dict as_list as_str as_int
    entries of_entries elements of_elements get_first plain digits digits_from to_str to_bool get_or
    identifier first_name name_in is_vanilla_bundle_identifier is_shulker_box get get_chain
    is_no_count is_true bounded_item_text display_name label_id with_name storage_item_identifier
    storage_item_tag text_or_empty is_empty_mapping is_empty_item number_text custom_name_of
    describe_mapping item_description is_bundle_name is_storage_item contents_state contents_of_tag
    contents_of_mapping serialized_storage_contents emit set_last show_entry show_entries
    show_hidden walk_contents show_state walk_item walk show_parent show_parents finish_summary
    storage_item_summary_lines tag
cut_unmarked = (refl, refl)
