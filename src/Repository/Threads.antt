-- ===== src/Repository/Threads.antt =====
-- Threads, messages and events: `create_thread`, `touch_thread`, `add_thread_message`, `add_event`
-- and the title rules of src/synode/infrastructure/persistence/repository.py. An event's payload is
-- not cut to its size limit here.
use synode.Prelude.{
  is_some, ℕ, zero, suc, String, Option, List, [], ◌∷◌, ◌++◌, ◌==◌, ◌⊹◌, if◌then◌else◌, is_space,
  is_blank, strip, ◌≡◌, refl,
}
use synode.Domain.{ThreadStatus, ThreadMessageAuthorType, ThreadMessageType, EventType}
use synode.Store.{
  Thread, Message, Event, Details, Error, M, pure, gets, or_raise, modify, ◌>>=◌, ◌>>◌, find,
  update, raise_if, thread_key,
}

-- A word in front of the words already found; the empty word is dropped.
abbrev push_word : String → List String → List String
push_word String.[] ws = ws
push_word (String.◌∷◌ c w) ws = String.◌∷◌ c w ∷ ws

-- The word that the text begins with, and the words after it.
split_from : String → String × List String
unfolding is_space
split_from String.[] = ("", [])
split_from (String.◌∷◌ c s) =
    let (w, ws) = split_from s in if is_space c then ("", push_word w ws) else (String.◌∷◌ c w, ws)

-- `value.split()`
unfoldable pub split : String → List String
unfolding split_from
split s = let (w, ws) = split_from s in push_word w ws

-- `" ".join(words)`
unfoldable pub join_words : List String → String
join_words [] = ""
join_words (w ∷ []) = w
join_words (w ∷ v ∷ ws) = w ⊹ (" " ⊹ join_words (v ∷ ws))

-- `value[:n]`
unfoldable pub take_chars : ℕ → String → String
take_chars zero s = ""
take_chars (suc n) String.[] = ""
take_chars (suc n) (String.◌∷◌ c s) = String.◌∷◌ c (take_chars n s)

unfoldable pub thread_title : String → String
unfolding split join_words take_chars
thread_title value =
    let title = join_words (split value) in
    if title == "" then "Untitled thread" else take_chars 120 title

-- `get_thread` and the `LookupError` where it returns None
unfoldable pub require_thread : String → M Thread
require_thread id = do
  found ← gets (λ db. find thread_key id db.threads)
  or_raise found (Error.thread_not_found id)

unfoldable pub write_thread : String → (ℕ → Thread → Thread) → M (Unit {0})
write_thread id f =
    modify (λ db. record db { threads = update thread_key id (f db.now) db.threads })

-- A second row with one primary key is refused by the database.
unfoldable pub insert_thread : Thread → M (Unit {0})
insert_thread t = do
  taken ← gets (λ db. is_some (find thread_key t.id db.threads))
  raise_if taken (Error.duplicate_key t.id)
  modify (λ db. record db { threads = db.threads ++ t ∷ [] })

-- `id` is what `new_id()` returned.
unfoldable pub create_thread : String → String → M Thread
create_thread id title = do
  now ← gets (λ db. db.now)
  let thread : Thread = record {
    id = id;
    title = thread_title title;
    status = ThreadStatus.active;
    updated_at = now;
  }
  insert_thread thread
  pure thread

unfoldable pub update_thread_title : String → String → M (Unit {0})
update_thread_title id title = do
  require_thread id
  write_thread id (λ now t. record t { title = thread_title title; updated_at = now })

unfoldable pub archive_thread : String → M (Unit {0})
archive_thread id = do
  require_thread id
  write_thread id (λ now t. record t { status = ThreadStatus.archived; updated_at = now })

unfoldable pub touch_thread : String → M (Unit {0})
touch_thread id = do require_thread id; write_thread id (λ now t. record t { updated_at = now })

unfoldable pub add_thread_message :
    String
    → ThreadMessageAuthorType
    → String
    → ThreadMessageType
    → String
    → Option String
    → M (Unit {0})
add_thread_message thread_id author_type author_name message_type content run_id = do
  raise_if (is_blank content) Error.blank_message
  let message : Message = record {
    thread_id = thread_id;
    run_id = run_id;
    author_type = author_type;
    author_name = author_name;
    message_type = message_type;
    content = strip content;
  }
  modify (λ db. record db { messages = db.messages ++ message ∷ [] })
  touch_thread thread_id

unfoldable pub add_event : String → EventType → Option String → Details → M (Unit {0})
add_event run_id event_type role payload =
    let event : Event = record {
      run_id = run_id;
      event_type = event_type;
      role = role;
      payload = payload;
    } in
    modify (λ db. record db { events = db.events ++ event ∷ [] })

thread_title_example : thread_title "  fix \n the  bug " ≡ "fix the bug"
unfolding thread_title
thread_title_example = refl
