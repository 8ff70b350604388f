-- ===== src/Repository/Examples.antt =====
-- Titles of threads, and the bounds on them.
use synode.Prelude.{◌≢◌, ◌≤◌}
use synode.Repository.Threads.{thread_title}
use synode.Repository.Titles.{chars, thread_title-bounds}

thread_title-bounds_example :
    (chars (thread_title " Fix  it ") ≤ 120) × (thread_title " Fix  it " ≢ "")
thread_title-bounds_example = thread_title-bounds " Fix  it "
