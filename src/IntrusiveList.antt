-- ===== src/IntrusiveList.antt =====
-- The lists of src/intrusive_list.h, down to their pointers: Ring is the doubly linked `List`,
-- Stack the singly linked `StackList` and `ForwardList`, Atomic the `AtomicForwardList`, Shared the
-- `List` under a lock.
pub mod Ring
pub mod Stack
pub mod Atomic
pub mod Shared
