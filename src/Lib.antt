-- ===== src/Lib.antt =====
-- A model of irctest, the test suite for IRC servers and clients.
--
-- A test drives a server by clients (`irctest/client_mock.py`), which turn the bytes of a socket
-- into messages by the parser (`irctest/irc_utils/message_parser.py`). The assertions of test cases
-- (`irctest/cases.py`) compare messages with patterns (`irctest/patma.py`). Apart from these,
-- `make_workflows.py` generates the workflows that run the tests, and `irctest/dashboard` makes pages
-- of their reports, `report.py` a short text. Controllers (`irctest/basecontrollers.py`) run the
-- servers and clients.
--
--   Base, Result       lists, strings as lists of code points, dicts in insertion order, exceptions
--   Regex              the regular expressions of patterns, as syntax trees with a matcher
--   Message            `message_parser.py`: Escape is `MultipleReplacer` and `unescape_tag_value`,
--                      Tags is `parse_tags`, Parse is `parse_message` and `to_history_message`;
--                      Render is no code of the repository but the printer that the round trip needs
--   Patma              `patma.py`: Operators has the patterns, Match the functions `match_string`,
--                      `match_list` and `match_dict`; Strings, Lists and Dicts are about these
--   Cases              `messageDiffers`, `messageEqual` and `assertMessageMatch` of `cases.py`;
--                      Fuelled has the rules for runs that do not end for want of fuel
--   Client             `client_mock.py`: Mock has `getMessages`, `getMessage` and `sendLine`, Decode
--                      the decoding of UTF-8; Receive and Wire are about these, Fuel about the loop
--                      of `getMessage`
--   Workflows          `make_workflows.py`: Config has what it reads and writes, Steps
--                      `get_install_steps` and `get_build_job`, Jobs `get_test_job`, Generate
--                      `generate_workflow`
--   Ports              the ports of controllers in `irctest/basecontrollers.py`: the controllers that
--                      share the file of used ports take steps, one at a time
--   Controllers        the processes of controllers: Start is `check_is_alive` and `wait_for_port`, Stop
--                      `kill_proc`, `terminate` and `kill`, Services `wait_for_services` and
--                      `getNickServResponse`; what the system answers is an argument
--   Capabilities       `cap_list_to_dict` of `irctest/irc_utils/capabilities.py`
--   Cases.Session      `getRegistrationMessage`, `getCapLs`, `skipToWelcome` and
--                      `requestCapabilities` of `BaseServerTestCase`, over the messages that the
--                      server sends before it closes the connection
--   Cases.Negotiate    `negotiateCapabilities` of `BaseClientTestCase`
--   Cases.Batch        `getBatchMessages`
--   Cases.Clients      `addClient` and `removeClient`, `joinClient`, and the decorator `retry`; what
--                      `int` reads of a string is an argument
--   Cases.Connect      `connectClient`, `authenticateClient`, `joinChannel` and
--                      `skipUnlessArbitraryClientTags`; `sasl_plain_blob` of
--                      `irctest/irc_utils/sasl.py`, with base64 and the encoding as arguments
--   Specifications     `irctest/specifications.py`: the enumerations and their lookup by name
--   Collection         the hooks of `conftest.py`
--   SelfTests          `irctest/self_tests/cases.py`: Specs has the table of messages that match a
--                      specification or not, and its tests are all run on the model
--   Dashboard          `irctest/dashboard`: Xml is `shortxml.py`; of `format.py`, Results is
--                      `CaseResult` and `iter_job_results`, FileNames the expression for the name of
--                      a results file, Cells and Table `build_test_table`, Pages `write_html_pages`
--                      and `write_test_outputs`, Index `write_html_index` and `main`; reports come
--                      parsed, and docstrings, digests and their encoding are arguments
--   History            the checks of `irctest/server_tests/chathistory.py`, over a server that answers a
--                      line with messages; Validate has `validate_chathistory`, and Reference, which
--                      is no code of the repository, describes which messages a server selects
--   Metadata           the assertions of `irctest/server_tests/metadata_3.py`, over a server that is a
--                      function of its state and a line
--   Report             `report.py`: `visit_bottomup`, `partial_compaction` and `compact_results` are in
--                      Report, `format_results` in Format, `main` in Build, over files that come
--                      parsed; the messages of a result are a list with no repetitions;
--                      Others and Apart are about the keys of its dicts
--
-- Methods become functions of the state that they read to the state that they leave, and what may
-- raise gives a Result with the exception's class. A socket is the list of what its `recv` will
-- give: bytes, a timeout or a reset; with nothing left a `recv` does not end, which is an outcome
-- of its own. Loops go by recursion on the list that they run over. The loop of `getMessage` goes
-- by fuel, which counts the calls of `getMessages`; each call that returns messages takes an event
-- at least, so more fuel than events is enough. The loops of `getCapLs` and
-- `negotiateCapabilities` get one more than the number of messages to come as their fuel, and take
-- one of these at least in each round; that they have no fuel left is a result of its own. The loop
-- of `wait_for_port` goes over its turns, each with what the system answers and the time since the
-- start; 600 turns of a tenth of a second are the minute after which it gives up, and the 201 rounds
-- of the wait for services, of a twentieth of a second at least, are its ten seconds.
--
-- Strings are lists of code points and lower and upper case are taken of ASCII letters only. Regular
-- expressions are given as syntax trees, since their parser is Python's. Not modelled are the texts
-- of exceptions, what is printed, TLS, the reading and writing of YAML, XML, the start of
-- processes, the copied SCRAM library, and the test scenarios but for the checks of histories and of
-- metadata, since they are about programs outside of this repository.
pub mod Base
pub mod Client
pub mod Workflows
pub mod Result
pub mod Ports
pub mod Dashboard
pub mod Regex
pub mod Message
pub mod Patma
pub mod Cases
pub mod Capabilities
pub mod Report
pub mod Metadata
pub mod History
pub mod Controllers
pub mod Collection
pub mod SelfTests
pub mod Specifications
