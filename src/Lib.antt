-- ===== src/Lib.antt =====
-- Verification library for the document engine of Yorkie, a server for collaborative editing.
--
-- A client edits its own copy of a JSON document. Every edit carries a ticket of a logical clock;
-- the edits of a client go to the server in changes, and from there to the other clients. The data
-- types of a document are replicated: whatever the order in which the edits reach a replica, it is
-- to end at the same document. This library models the logical clock, the bookkeeping of changes
-- and the replicated data types with the trees below them.
--
-- Which file models what (paths from the root of the repository):
-- - Prelude: Boolean tests, lists over the native numbers, integers with a sign, total orders, sorted
--   association lists.
-- - Time: pkg/document/time. ActorId and ActorId/Hex are actor_id.go, Ticket and Ticket/Key are
--   ticket.go. A pointer to an actor is an `Option`; a panic on nil is `none`. A `Stamp` is a ticket
--   whose actor is there; stamps are totally ordered, and are what the data types are used at.
-- - Checkpoint: pkg/document/checkpoint/checkpoint.go, with the wrap of its uint32 and uint64.
-- - Change: pkg/document/change. Id is id.go; Context is the ticket counter and the list of
--   operations of context.go; Change is change.go, Pack is pack.go. The operations of a change and
--   the root that they edit are the interface `Editing`.
-- - Key: pkg/document/key/key.go.
-- - Document: pkg/document/internal_document.go; Document/Client is pkg/document/document.go, with the
--   clone of the root. An error keeps what was done before it.
-- - Server: ClientInfo is yorkie/backend/db/client_info.go and doc_info.go; Push is `pushChanges` and
--   Pull is `pullPack` of yorkie/packs/packs.go, over the queries of the database; Exchange joins
--   the push to the documents of the clients.
-- - Llrb: pkg/llrb/llrb.go, `Put` and `Floor`. A dereference of nil is `none`. A node's `parent`
--   field is replaced by the turns that `Floor` has taken; a climb past the root, which reads a stale
--   field, is the result `above_root`.
-- - Splay: pkg/splay/splay.go. A node with its parent pointers is a `Place`: the node with what is
--   below it, and the turns that lead up from it to the root. An index that is looked for may be
--   negative.
-- - Element: `Remove` and the three times that every element of pkg/document/json repeats.
-- - Value and Counter: the values of pkg/document/json/primitive.go with their bytes, and `Increase` of
--   counter.go. An int and an int64 are words of 64 bits; a time has the name of its location;
--   the arithmetic of floats is a parameter.
-- - Rht: pkg/document/json/rht.go. The two maps share their nodes, so the nodes live in a store and
--   the maps hold places in it.
-- - RgaList: pkg/document/json/rga_tree_list.go. The linked list with its dummy head is a list; the
--   map by creation time is the search for that time; `size` is a word of 64 bits, which wraps below 0;
--   a fatal log line is `none`. The elements are any type; what their copies keep of their times
--   depends on their kind, and the copy of what they contain is an argument.
-- - Pq: pkg/pq/priority_queue.go with the loops of container/heap. Order says what a heap is; Swap, Up
--   and Down are the steps of the loops, Queue and Release the operations, Top and Members what is
--   shown. The loops have as much fuel as the queue has items and one more, with which they end.
-- - RhtPq: pkg/document/json/rht_pq_map.go, a queue for each key with the nodes in a store. Entries is
--   its invariant, Latest and Shown are what `Set` and `Get` do with the member created last.
-- - Root: pkg/document/json/root.go, object.go and array.go, and the operations Set, Add, Move and Remove
--   of pkg/document/operation. What a container holds is on a heap by the creation time of the
--   container; the times of an element stand in its parent. The value that an operation brings is a
--   leaf or an empty container, as the proxies and the converter make them. Invariant, Frame and Setting lead from the maps and lists to whole documents.
-- - TextSplit: pkg/document/json/rga_tree_split.go. The linked list of blocks is a list; `insPrev` and
--   `insNext` are maps between IDs; the tree by index is the scan of the list that Splay/Find proves
--   `Find` to be, and the tree by ID is the search for the largest ID that is not above a given one.
--   TextSplit/Edit is `edit` and the removal of tombstones. Shape is the invariant of the list; Cut,
--   CutShape, Similar and Insertion show that it is kept; Locate, Index and Splice lead from two
--   indices to the text behind an edit.
-- - Text: pkg/document/json/text.go with UTF-16 written out; Text/Edits runs edits by indices, as
--   pkg/document/proxy/text_proxy.go makes them, on any values that can be spelled. A `Split` inside a
--   surrogate pair makes U+FFFD of both halves; Text/Reading reads the halves of whole pairs so too,
--   under which a value is spelled by its code units, and Text/Strings has the theorems on strings.
-- - RichText: pkg/document/json/rich_text.go over TextSplit, Text and Rht; Styles and Strings are
--   `SetStyle`.
--
-- The data types are proved for any totally ordered type of times (`Ord`); `stamp_ord` of
-- Time/Ticket/Order shows that tickets with an actor are one. A theorem on one file uses what the files
-- below it prove: RgaList uses Element, and the tickets of Change use the order of Time. Outside
-- Pq no fuel is used: every loop is by recursion on the list or the tree that it walks.
--
-- Not modelled: output for people (`String`, `AnnotatedString`, `Marshal`); the removal from a
-- red-black tree; the index tree of a replicated list, whose operations Splay covers by themselves;
-- the garbage collection of the root, and the operations on text, counters and their kin, which
-- `Editing` stands for; the rest of
-- `PushPull` and the database; and what is input and output.
pub mod Prelude
pub mod Time
pub mod Checkpoint
pub mod Change
pub mod Key
pub mod Document
pub mod Server
pub mod Llrb
pub mod Rht
pub mod Splay
pub mod Element
pub mod Value
pub mod Counter
pub mod RgaList
pub mod Pq
pub mod RhtPq
pub mod Root
pub mod RichText
pub mod TextSplit
pub mod Text
