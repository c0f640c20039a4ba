-- ===== src/Lib.antt =====
-- XML-RPC for C: the values, their XML text, and the routines that both stand on.
--
-- A program makes values (xmlrpc_value) and hands them to the serializer, which writes a call or a
-- response as XML. The other side gives the XML to expat, whose events build a tree of elements, and
-- the parsers turn the tree into a call or a response. Strings pass through the UTF-8 routines on
-- both ways, byte strings through base64, and every routine reports failure in an xmlrpc_env. A
-- server keeps its methods in a registry, which turns the text of a call into the text of a
-- response. Two routines take and make values by format strings (xmlrpc_build_value,
-- xmlrpc_decompose_value).
--
-- Files and what they model:
--
--   Fault, Env     xmlrpc-c/lib/libutil/error.c and the codes of xmlrpc-c/include/xmlrpc-c/util.h.
--                  A routine that takes an environment returns a Result. A fault made by the library
--                  has the format string as its text, without the arguments. Env has
--                  xmlrpc_env_set_fault, which repairs a text that a caller gives.
--   MemBlock       xmlrpc-c/lib/libutil/memblock.c: blocks of memory and their growth, which the other
--                  modules take as byte strings.
--   Utf8           xmlrpc-c/lib/libutil/utf8.c: xmlrpc_utf8_to_wcs, xmlrpc_wcs_to_utf8,
--                  xmlrpc_validate_utf8, xmlrpc_force_to_utf8, xmlrpc_force_to_xml_chars. Utf8.Chars
--                  says what the UTF-8 of a text is, apart from the code.
--   Base64         xmlrpc-c/lib/libutil/base64.c: base64Encode and its two callers, and
--                  xmlrpc_base64_decode. Base64.Rfc has the encoding of RFC 2045 by groups of three.
--   Value          xmlrpc-c/include/xmlrpc-c/base_int.h: the values as a tree. Value.Strings,
--                  Value.Arrays and Value.Structs have the operations of xmlrpc-c/src/xmlrpc_string.c,
--                  xmlrpc_array.c and xmlrpc_struct.c, Value.Strings.Wide the strings of wchar_t,
--                  Value.Data the readers of xmlrpc_data.c, and Value.Times xmlrpc_datetime.c with
--                  xmlrpc-c/lib/libutil/time.c; Value.Structs.Lookup has the lookup by key that
--                  the search by hash implements.
--   Serialize      xmlrpc-c/src/xmlrpc_serialize.c, in both dialects: values, parameters, calls,
--                  responses, faults.
--   Element        xmlrpc-c/src/xmlrpc_expat.c: the element tree and its accessors.
--   Number         xmlrpc-c/lib/libutil/string_number.c, with strtol of the C library.
--   ParseDatetime  xmlrpc-c/src/parse_datetime.c, as built with regular expressions.
--   ParseScalar    xmlrpc-c/src/parse_value.c: the elements without children.
--   ParseValue     xmlrpc-c/src/parse_value.c: arrays, structs, and xmlrpc_parseValue.
--   ParseCall      xmlrpc-c/src/xmlrpc_parse.c: calls, and responses with a result or a fault.
--                  xml_parse and the limits of resource.c are parameters. ParseCall.Printed has the
--                  texts that the serializer makes of calls and responses, ParseCall.Merged
--                  xmlrpc_parse_response and xmlrpc_parse_value_xml.
--   Build          xmlrpc-c/src/xmlrpc_build.c: values by a format string and a list of arguments.
--   Decompose      xmlrpc-c/src/xmlrpc_decompose.c: Decompose.Format makes the tree of a format string,
--                  and Decompose takes a value apart by it. Decompose.Trees says what the format
--                  string of a tree is, apart from the code.
--   Registry       xmlrpc-c/src/registry.c, method.c and system_method.c. Registry.Method has the list of
--                  methods and their signatures, Registry.System the system methods, Registry.Install
--                  a new registry and its settings, Registry.Dispatch the calls. A method of the
--                  program is a function from its parameters, the information on the call and the
--                  state of the program to a result and a new state.
--   Json           xmlrpc-c/src/json.c: Json.Scan and Json.Token the tokenizer, Json.Parse the parser,
--                  Json.Print the serializer, Json.Strings the escapes of both.
--   Document       no file of its own: the document tree of a value, with its text and its elements,
--                  by the grammar of XML-RPC. That an XML processor makes those elements of that text
--                  is what the library relies on expat for.
--   Prelude        Boolean tests, lists, integers, decimal text; Tests runs the code on examples.
--
-- Bytes are natural numbers; where a theorem needs them below 256 it says so. A C string is a byte
-- string up to its first NUL. Machine arithmetic keeps its wrap-around: the hash of a struct key is
-- modulo 2^32 and takes a char as signed, the accumulator of the base64 decoder is modulo 2^32. A long
-- has 64 bits. Memory is taken never to run out, and the assertions of the source are left out.
--
-- Loops are structural recursion, or recursion on fuel: the UTF-8 routines get the length of their
-- input, of which each round takes a byte at least, and the base64 encoder gets as many lines as
-- there are bytes. The parser of values counts maxRecursion down as the source does. The parsers of
-- format strings and of signatures get twice the length of the string and two, the parser of JSON
-- three times its length and three, of which a token takes three at most.
--
-- A system.multicall dispatches calls of the same registry, but refuses calls of itself, so that
-- calls are two levels deep at most: dispatch_call has one level for the call and one for those that
-- it makes.
--
-- The arithmetic of double and strtod are a parameter (ParseScalar.Double.FloatOps), and so is the
-- text of a double in Serialize and in Json. The methods of the program, its default method and its
-- preinvoke method are arguments, and the version, which a generated file holds, is a parameter.
--
-- Where the source leaves open what the program does, that is a parameter: in Json, what sprintf does
-- when it writes behind its buffer, and which digits behind its own strtol finds in memory.
--
-- Not modelled: expat and the event handlers on it, reference counts, times before 1970 given to
-- xmlrpc_datetime_new_usec, a method that changes the registry while it runs, the HTTP server, the
-- client and its transports, and the C++ wrappers.
pub mod Build
pub mod Decompose
pub mod Prelude
pub mod Registry
pub mod Fault
pub mod Utf8
pub mod Env
pub mod Base64
pub mod Value
pub mod Serialize
pub mod Element
pub mod Number
pub mod ParseDatetime
pub mod ParseScalar
pub mod ParseValue
pub mod ParseCall
pub mod Document
pub mod Tests
pub mod Json
pub mod MemBlock
