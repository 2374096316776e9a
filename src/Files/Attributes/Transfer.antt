-- ===== src/Files/Attributes/Transfer.antt =====
-- What File::modifyXattributes (snapper/File.cc) does to the attributes of the file when nothing fails.
use snapper.Base.{Bytes, find_key, IsMap, ◌≡◌, ◌∙◌, true, false, none, List, if◌then◌else◌}
use snapper.Files.Attributes.{
  Xamap, Attributes, difference, is_acl, filter_out_acls, modify_xattributes,
}
use snapper.Files.Attributes.Difference.{has, is_some, difference-IsOrdered, difference-Holds}
use snapper.Files.Attributes.Loops.{
  or_else, never, All-find_key, All-has, serialize_to_lem, loops-Leaves,
}
use snapper.Files.Attributes.Filtered.{
  filter-IsMap, filter-IsAscending, Filtered, filtered, when_created, when_deleted, when_replaced,
  outcome,
}

-- Where setting and removing attributes fails only for a name that is there, or is not there, and the
-- map that was read is what the file has, modifyXattributes succeeds, and then the file has the
-- attributes of the source, except that those of ACLs are as they were. Both maps are in ascending
-- order.
pub modify_xattributes_lem :
    (signatures : List Bytes) (xa_src xa_dest : Xamap) (f : Attributes)
    → IsMap xa_src
    → IsMap xa_dest
    → ((j : Bytes) → f j ≡ find_key j xa_dest)
    → ((modify_xattributes (λ k. false) signatures xa_src xa_dest f).0 ≡ true)
      × ((j : Bytes)
          → (modify_xattributes (λ k. false) signatures xa_src xa_dest f).1 j
            ≡ (if is_acl signatures j then find_key j xa_dest else find_key j xa_src))
unfolding modify_xattributes
modify_xattributes_lem signatures xa_src xa_dest f ms md e =
    let x = difference xa_src xa_dest in
    let (oc, od, or) = difference-IsOrdered xa_src xa_dest ms md in
    let y = filter_out_acls signatures x in
    let holds : (j : Bytes) → Filtered signatures j y (find_key j xa_src) (find_key j xa_dest) =
      λ j. filtered signatures j x _ _ (difference-Holds j xa_src xa_dest ms md) in
    let pc = filter-IsMap signatures x.create_vec oc in
    let pd = filter-IsAscending signatures x.delete_vec od in
    let pr = filter-IsMap signatures x.replace_vec or in
    let (a, b) =
      loops-Leaves y.create_vec y.replace_vec y.delete_vec f pc pd pr
        (All-find_key (λ j o. f j ≡ none) y.create_vec pc
          (λ j v q. rw (e j) (when_created signatures j y _ _ v (holds j) q)))
        (All-has _ y.delete_vec (λ j q. rw (e j) (when_deleted signatures j y _ _ (holds j) q)))
        (All-find_key
          (λ j o.
            is_some (if has j y.delete_vec then none else or_else (find_key j y.create_vec) (f j))
            ≡ true)
          y.replace_vec pr (λ j v q. rw (e j) (when_replaced signatures j y _ _ v (holds j) q))) in
    rw (serialize_to_lem never y.create_vec y.replace_vec y.delete_vec f)
      (a, λ j. b j ∙ rw (e j) (outcome signatures j y _ _ (holds j)))
