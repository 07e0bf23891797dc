-- ===== src/Lib.antt =====
-- SimpleDB, a relational database in Java (src/main/java/simpledb), and the pages of its
-- documentation, which run in the browser (html/search/search.js, html/dynsections.js,
-- html/menu.js).
--
-- A transaction of the database reads and writes blocks of files. Before it does, its concurrency
-- manager asks the lock table, which all transactions share, for a lock on the block. Then it pins
-- the block: the buffer manager finds the page in its pool or gives a buffer that nobody uses to
-- the block, writing the page that was in it to the disk. A change is made in the buffer, and
-- reaches the disk when the buffer is reused or when the transaction commits.
--
-- Base: what all parts share: tests, lists, integers with a sign, keys with a decided equality,
--   and java.util.HashMap as a list of rows (Base/Assoc).
--
-- Tx: locking under wait-die.
--   Tx/Block is file/BlockId.java.
--   Tx/LockTable is tx/concurrency/LockTable.java. Its methods are synchronized and wait inside a
--     loop. The model is one pass through the loop (s_lock, x_lock), which grants, waits or
--     throws; a waiting transaction makes the pass again, or is interrupted (interrupt), which throws. unlock is LockTable.unlock.
--   Tx/ConcurrencyMgr is tx/concurrency/ConcurrencyMgr.java: s_lock, x_lock with its upgrade, and
--     release. The static lock table is passed along.
--   Tx/Locking has the table with the managers of all transactions, its requests and releases,
--     and the states that any interleaving of them comes to.
--   Tx/Counts counts entries of a row; Tx/Books relates the table and the managers; Tx/Requests
--     and Tx/Releases keep that relation; Tx/Exclusion and Tx/WaitDie conclude.
--
-- Buffer: the pool.
--   Buffer/Page is buffer/Buffer.java, over any type of pages. The file and log managers are the
--     disk, a function from blocks, and the list of the calls made to them.
--   Buffer/BufferMgr is buffer/BufferMgr.java. try_to_pin is tryToPin with the choice of the least
--     recently used buffer; unpin, flush_all and the constructor are theirs; modify is what
--     setInt of tx/Transaction.java does with a buffer it has.
--   Buffer/Valid says when a pool is in order, and what its clients read at a block (view).
--     Buffer/Hit, Buffer/Miss, Buffer/Steps and Buffer/Flush treat the operations, Buffer/Pool the
--     answers of tryToPin, Buffer/History the states that the calls come to.
--   Buffer/WriteAhead notes, beside a pool, the number of the last log record of each block, and
--     says what the calls to the managers must be; its children treat the operations, and
--     Buffer/Logged has the states with their calls.
--   The loop of pin, which repeats tryToPin until a clock says that ten seconds have passed, and
--     the printed status are left out.
--
-- Recovery: undo-only recovery.
--   Recovery/LogRecord is tx/recovery/LogRecord.java with its records: what they undo, at places
--     (a block and an offset) whose values do not overlap.
--   Recovery/RecoveryMgr is tx/recovery/RecoveryMgr.java: do_rollback and do_recover are its
--     loops over the log, whose last record comes first; begin_tx, change, commit_tx, rollback_tx
--     and recover are what a transaction does to the contents and the log.
--   Recovery/Unfinished tells the changes that recovery undoes; Recovery/Undo, Recovery/Rollback
--     and Recovery/Heads treat the loops; Recovery/History has the states that transactions and
--     crashes come to; Recovery/Sound and Recovery/Restore conclude.
--   A crash keeps the log and loses only changes of transactions that have not finished: the
--     flushes of the log and of the pool, which see to it, are not part of this model. That no
--     two unfinished transactions change a place is what exclusive locks grant.
--
-- Log: the log on the bytes of its pages.
--   Log/Page is file/Page.java: get_int, set_int, get_bytes, set_bytes on the bytes of a block; an
--     int is four bytes, and an access outside the page is an exception (none). Log/Page/Ascii is its
--     getString and setString, whose bytes are US_ASCII. Log/Page/Access
--     treats what is read after a write, Log/Page/Within what a write leaves.
--   Log/LogMgr is log/LogMgr.java over one file, with read, write and append of
--     file/FileMgr.java, whose positions in the file are products of 32 bits (seek):
--     open_log is the constructor, append, append_new_block, flush and flush_to its methods.
--     Log/LogIterator is log/LogIterator.java.
--   Log/Unbounded is the same log where a block is found by its number; Log/Bounded and Log/Reading
--     treat the operations in a file without positions from 2^31 on, where the two do the same.
--   Log/Records says which records a log, or a file, holds; Log/Blocks, Log/Place, Log/Append and
--     Log/Iterate treat the operations, Log/RoundTrip the opening of a log, Log/Programs a program that
--     appends and iterates. Log/Saved says how far the
--     file is behind the log after any calls, Log/Durable what flush(lsn) has saved. A loop over an
--     iterator (read_all) runs on fuel, one round more than there are records.
--
-- Record: records in the slots of a block.
--   Record/Layout is record/Schema.java and the constructor of record/Layout.java: add_field and
--     layout_of. Record/Offsets treats where the fields are.
--   Record/RecordPage is record/RecordPage.java on the page of its block; get_int_field and
--     set_int_field are its getInt and setInt. The ints that it and Layout compute are their 32
--     bits (int32), where those from 2^31 on are negative. The loops of searchAfter
--     and format run on fuel, one round more than the page has bytes: a slot has at least four.
--     Record/Flags has the places of slots without a limit, and says what a search finds, Record/Search and Record/Insert treat nextAfter,
--     insertAfter and delete, Record/Fields and Record/Write the fields of a slot,
--     Record/Format the formatting of a block.
--   The transaction's locks and log records, which RecordPage calls for, are those of Tx and
--     Recovery; the two are not composed here.
--
-- Query: values, predicates and the scans of queries.
--   Query/Constant is query/Constant.java, a number or a string. Query/Predicate evaluates
--     query/Expression.java, Term.java and Predicate.java on the current record of a scan.
--   Query/Scan has the interface query/Scan.java as a record of functions, and over it
--     query/SelectScan.java, ProjectScan.java and ProductScan.java. The loop of a selection runs on
--     fuel, more than the records of the scan below it.
--   Query/Reads says which records a scan reads, Query/Algebra what relational algebra makes of
--     records; Query/Reading and Query/Pairs relate the two.
--   Query/SubPred has the parts of a predicate for plans, and the selections of opt/TablePlanner.java
--     that opt/HeuristicQueryPlanner.java puts on tables and joins: that of a table reads the
--     record of this table. Query/Joined joins the records of all tables, Query/Split treats the
--     selections.
--
-- The plans of queries: Plan/BasicQueryPlanner is plan/BasicQueryPlanner.java with their open methods.
--   What is opened for the name of a table or view is a parameter. Plan/Refinement relates the plan
--   to relational algebra.
--
-- Parse: the statements of SQL.
--   Parse/Lexer is parse/Lexer.java over the list of tokens that the stream tokenizer of Java makes
--     of a text. A syntax error is none.
--   Parse/Data is the data of a query and of the commands (parse/QueryData.java, InsertData.java and
--     the like), with expressions, terms and predicates. Parse/Parser is parse/Parser.java up to
--     query, Parse/Commands its updateCmd and what it calls. The recursion runs on fuel, for which
--     the number of tokens is enough.
--   Parse/Grammar writes queries and commands as tokens; Parse/Pieces, Parse/Columns and
--     Parse/Lengths treat the parts of a statement, Parse/RoundTrip the statements.
--
-- Materialize: sorting.
--   Materialize/RecordComparator is materialize/RecordComparator.java; Materialize/RowOrder relates
--     it to an order on the records of a table, and Materialize/Order says what is used of one.
--   Materialize/SortPlan is open of materialize/SortPlan.java with the splitting and merging of
--     runs, a temporary table being the list of its records. Each round of the loop of open leaves
--     fewer runs, so it runs on one round more than there are runs.
--   Materialize/SortScan is materialize/SortScan.java; a loop over a scan (read_scan) runs on one
--     round more than there are records. Materialize/Merge, Runs and Scan treat merging, splitting
--     and scanning, Materialize/Sort sorting as a whole.
--
-- Multibuffer: multibuffer/BufferNeeds.java, best_root and best_factor. The quotient and the root
--   that a round computes in floating point are parameters; the loops run on 32 rounds, and on one
--   round more than the size.
--
-- Docs: the search of html/search/search.js, with the menu data of html/search/searchdata.js.
--   A text is a list of UTF-16 units (Docs/Text). Docs/Ids is convertToId, Docs/Dom the elements
--     and their tree, Docs/Create createResults with its three helpers.
--   Docs/Results is SearchResults: Results/Search its Search, Results/Navigation the moves of the
--     focus by keys.
--   Docs/SearchBox is SearchBox: its fields and the page it works on (SearchBox/Page), its panel
--     and section menu, the search field with its timer, Search itself.
--   Docs/Menu is makeTree of html/menu.js, with the menu of html/menudata.js in Menu/Data;
--     Menu/Read reads back what it writes.
--   Docs/DynSections is html/dynsections.js: Folding has toggleVisibility and toggleInherit,
--     Directory has updateStripes, toggleLevel and toggleFolder over the rows of the table, with
--     their identifiers in Directory/Paths and what shows in Directory/Tree and Directory/Shown.
--     The calls of jQuery are a parameter (DynSections/JQuery), with what jQuery documents of
--     them, for the single class names and the display values that the code uses, as hypotheses; DynSections/Elements has elements that behave so.
--   The browser's toLowerCase, escape and unescape, its comparison of a text with the number 1,
--     and the geometry of the page are parameters.
--
-- Every loop is a recursion on what it runs through, except these, which run on fuel. walk, the
-- search below an element for find_child_element, has a round for each node and each end of a
-- list of children, and one more, and each round leaves one of these behind. nav_next has one
-- more than the number of rows, as each round moves past a row, and last_link one more than the
-- number of links in its row. The digits of a number have as many rounds as the number, and each
-- round divides it.
--
-- Not modelled: html/jquery.js is another project's library; the data files of html/search are
-- generated; initMenu of html/menu.js inserts the menu through jQuery. Of the database, the
-- scan of a table, updates of tables, the estimates of plans and the choices that rest on them,
-- indexes, the catalog, grouping and the merge join, and the drivers and clients are not modelled,
-- nor are the splitting of a text into tokens and the errors of files.
pub mod Base
pub mod Tx
pub mod Buffer
pub mod Recovery
pub mod Log
pub mod Record
pub mod Query
pub mod Parse
pub mod Plan
pub mod Materialize
pub mod Multibuffer
pub mod Docs
